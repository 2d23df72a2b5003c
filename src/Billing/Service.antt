-- ===== src/Billing/Service.antt =====
-- billing.service.ts, and `cycleKeyFor` of rent-cycle.ts. `now` is the time that an operation reads; a
-- day that is shown is the date itself.
mod Rows
unfoldable pub use Rows.*
use rookopg.Prelude.{
  ℕ, ◌+◌, ◌-◌, ◌*◌, Bool, not, ◌&&◌, ◌||◌, Option, none, some, List, [], ◌∷◌, ◌++◌, map, ◌==◌, ltb,
  leb, length, sum_of, select, if◌then◌else◌, is_none,
}
use rookopg.Prelude.Int.{ℤ, pos, ltb_ℤ}
use rookopg.Calendar.{Date, ms_per_day, get_utc_full_year, get_utc_month, get_utc_date}
use rookopg.RentCycle.{RentPeriod, CycleOptions, rent_periods, start_of_day, days_between}
use rookopg.Errors.{Result, ok, throw, not_found, conflict, hide_forbidden}
use rookopg.Iam.{AuthenticatedActor, OrgRole, owner, manager, assert_property_access}
use rookopg.Database.{
  CycleKey, InvoiceKind, InvoiceStatus, PaymentMethod, Tenancy, TenancyStatus, Property, Db,
}
use rookopg.Database.Client.{Prisma}
use rookopg.Database.Session.{
  Session, ◌>>=◌, ◌>>◌, pure, lift, reads, writes, require_s, require_some, transact_with,
}
use rookopg.Billing.Repository.{
  NewInvoice, InvoiceRow, PaymentInput, list_billable_tenancies, list_tenancies_for_dues,
  list_properties_with_tenants, create_invoices, unallocated_credit, record_payment,
  find_tenancy_for_billing, invoices_for_tenancies, invoices_by_ids, collection_totals,
}

module _ (prisma : Prisma) where
  unfoldable pub generate_for_property : Date → ℕ → Db → GenerateInvoicesResult × Db
  generate_for_property now property_id db =
      let tenancies = list_billable_tenancies prisma property_id db in
      let invoices = owed_invoices (cutoff_at now) tenancies in
      let (created, db') = create_invoices prisma invoices db in
      (
        record {
          created = created;
          already_billed = length invoices - created;
          tenancies_considered = length tenancies;
        },
        db',
      )

  unfoldable pub assert_access : AuthenticatedActor → ℕ → List OrgRole → Session (Unit {0})
  assert_access actor property_id roles = do
    found ← reads λ db.
        prisma.find_first Property (λ p. (p.id == property_id) && is_none p.deleted_at)
          db.properties
    property ← require_some found (not_found "Property")
    lift
        (hide_forbidden "Property" (assert_property_access actor property.org_id property.id roles))

  unfoldable pub generate_for_property_as_actor :
      Date → AuthenticatedActor → ℕ → Session GenerateInvoicesResult
  generate_for_property_as_actor now actor property_id = do
    assert_access actor property_id billing_writers
    transact_with λ db. ok (generate_for_property now property_id db)

  -- The rows that the dues page is made of, once billing is up to date.
  unfoldable pub dues_of : Date → ℕ → Db → List TenantDues
  dues_of now property_id db =
      let tenancies = list_tenancies_for_dues prisma property_id db in
      let invoices = invoices_for_tenancies prisma (map (λ (t : Tenancy). t.id) tenancies) db in
      sort_dues (
        map
          (λ (t : Tenancy).
            to_dues now t (select (λ (r : InvoiceRow). r.0.tenancy_id == t.id) invoices)
              (unallocated_credit prisma t.id db))
          tenancies)

  unfoldable pub dues_response : Date → ℕ → Db → DuesResponse
  dues_response now property_id db =
      let tenants = dues_of now property_id db in
      let totals = collection_totals prisma property_id db in
      record {
        billed_paise = totals.0;
        collected_paise = totals.1;
        outstanding_paise = totals.0 - totals.1;
        tenants_in_arrears =
            length (select (λ (t : TenantDues). ltb 0 t.outstanding_paise) tenants);
        tenant_count = length tenants;
        tenants = tenants;
      }

  unfoldable pub dues : Date → AuthenticatedActor → ℕ → Session DuesResponse
  dues now actor property_id = do
    assert_access actor property_id []
    writes λ db. (generate_for_property now property_id db).1
    reads (dues_response now property_id)

  abbrev pub payment_input : ℕ → ℕ → Tenancy → RecordPaymentDto → Date → PaymentInput
  payment_input recorded_by property_id t dto received = record {
    org_id = t.org_id;
    recorded_by_user_id = recorded_by;
    property_id = property_id;
    tenancy_id = t.id;
    tenant_user_id = t.tenant_user_id;
    amount_paise = dto.amount_paise;
    method = dto.method;
    received_at = received;
    target_invoice_id = dto.invoice_id;
  }

  unfoldable pub take_payment :
      Date → AuthenticatedActor → ℕ → RecordPaymentDto → Session PaymentReceipt
  take_payment now actor property_id dto = do
    assert_access actor property_id billing_writers
    found ← reads (find_tenancy_for_billing prisma dto.tenancy_id)
    t ← require_some found (not_found "Tenant")
    require_s (t.property_id == property_id) (not_found "Tenant")
    received ← lift (received_at now dto.received_on)
    require_s (leb (start_of_day received) (start_of_day now))
        (conflict "Money cannot be recorded as received in the future.")
    writes λ db. (generate_for_property now property_id db).1
    result ←
        transact_with
          (record_payment prisma (payment_input actor.user_id property_id t dto received))
    settled ← reads (invoices_by_ids prisma result.touched_invoice_ids)
    pure (record {
      payment_id = result.payment_id;
      amount_paise = dto.amount_paise;
      allocated_paise = result.allocated_paise;
      credit_paise = dto.amount_paise - result.allocated_paise;
      settled = map (to_invoice_dto now) settled;
    })

  -- The loop of `generateEverywhere`: the number of invoices created.
  unfoldable pub generate_each : Date → List ℕ → Db → ℕ × Db
  generate_each now [] db = (0, db)
  generate_each now (property_id ∷ rest) db =
      let (result, db') = generate_for_property now property_id db in
      let (created, db'') = generate_each now rest db' in (result.created + created, db'')

  -- The number of properties, and of invoices created.
  unfoldable pub generate_everywhere : Date → Db → (ℕ × ℕ) × Db
  generate_everywhere now db =
      let property_ids = list_properties_with_tenants prisma db in
      let (created, db') = generate_each now property_ids db in
      ((length property_ids, created), db')

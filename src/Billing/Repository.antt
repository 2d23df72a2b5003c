-- ===== src/Billing/Repository.antt =====
-- billing.repository.ts. A row that is read with its allocations is an `OpenInvoice` or an `InvoiceRow`
-- with their sum. Names and codes that are only displayed, and notes, are left out.
mod Rows
pub use Rows.*
use rookopg.Prelude.{
  ℕ, ◌+◌, ◌-◌, Bool, true, false, not, ◌&&◌, ◌||◌, Option, none, some, List, [], ◌∷◌, ◌++◌, map,
  ◌==◌, ltb, leb, any, min, length, sum_of, select, if◌then◌else◌, is_some,
}
use rookopg.Errors.{
  Result, ok, throw, unique_violation, require, ◌>>=◌, ◌>>◌, value_out_of_range,
  foreign_key_violation,
}
use rookopg.Database.{Invoice, Payment, PaymentAllocation, Tenancy, Db, is_id}
use rookopg.Database.Client.{Prisma}

-- The largest number that an Int column holds.
abbrev pub max_int : ℕ
max_int = 2147483647

module _ (prisma : Prisma) where
  unfoldable pub list_billable_tenancies : ℕ → Db → List Tenancy
  list_billable_tenancies property_id db =
      prisma.find_many Tenancy (λ t. (t.property_id == property_id) && is_current t.status)
        db.tenancies

  unfoldable pub list_tenancies_for_dues : ℕ → Db → List Tenancy
  list_tenancies_for_dues property_id db =
      list_billable_tenancies property_id db
      ++ prisma.find_many Tenancy
          (λ t. (t.property_id == property_id) && not (is_current t.status) && owes db.invoices t)
          db.tenancies

  unfoldable pub list_properties_with_tenants : Db → List ℕ
  list_properties_with_tenants db = distinct_ids (
      map (λ (t : Tenancy). t.property_id)
        (prisma.find_many Tenancy (λ t. is_current t.status) db.tenancies))

  unfoldable pub create_invoices : List NewInvoice → Db → ℕ × Db
  create_invoices new db =
      let (count, invoices) =
        prisma.create_many Invoice same_cycle (numbered db.next_id new) db.invoices in
      (count, record db { next_id = db.next_id + length new; invoices = invoices })

  unfoldable pub unallocated_credit : ℕ → Db → ℕ
  unallocated_credit tenancy_id db = sum_of (leftover db.payment_allocations) (
      prisma.find_many Payment (λ p. is_id tenancy_id p.tenancy_id && is_captured p.status)
        db.payments)

  -- The loop of `recordPayment`: what remains in the end, and the invoices that it touched.
  unfoldable pub settle_each : ℕ → List OpenInvoice → ℕ → Db → Result ((ℕ × List ℕ) × Db)
  settle_each payment_id [] remaining db = ok ((remaining, []), db)
  settle_each payment_id (i ∷ rest) remaining db =
      if remaining == 0
      then ok ((remaining, []), db)
      else if leb i.amount_paise i.already_paid
      then settle_each payment_id rest remaining db
      else (do
        let applied = min (outstanding i) remaining
        require (not (any (same_pair payment_id i.id) db.payment_allocations)) unique_violation
        invoices ←
            prisma.update Invoice (λ v. v.id == i.id)
              (λ v. record v { status = settled_status i applied }) db.invoices
        done ← settle_each payment_id rest (remaining - applied) (record db {
          payment_allocations =
              prisma.create PaymentAllocation (allocation payment_id i.id applied)
                db.payment_allocations;
          invoices = invoices;
        })
        ok ((done.0.0, i.id ∷ done.0.1), done.1))

  -- What `recordPayment` reads: the open invoices, oldest due first, or the one that is named.
  abbrev pub open_invoices : PaymentInput → Db → List OpenInvoice
  open_invoices input db =
      map (with_paid db.payment_allocations)
        (prisma.find_ordered Invoice (λ v. v.due_date) (is_settleable input) db.invoices)

  -- The database once the payment's own row is in.
  abbrev pub with_payment : PaymentInput → Db → Db
  with_payment input db = record db {
    next_id = db.next_id + 1;
    payments = prisma.create Payment (recorded_payment db.next_id input) db.payments;
  }

  -- The rows that a payment names are there.
  abbrev pub references : PaymentInput → Db → Bool
  references input db =
      any (λ o. o.id == input.org_id) db.organisations
      && any (λ p. p.id == input.property_id) db.properties
      && any (λ t. t.id == input.tenancy_id) db.tenancies
      && any (λ u. u.id == input.tenant_user_id) db.users
      && any (λ u. u.id == input.recorded_by_user_id) db.users

  unfoldable pub record_payment : PaymentInput → Db → Result (Receipt × Db)
  record_payment input db = do
    require (leb input.amount_paise max_int) value_out_of_range
    require (references input db) foreign_key_violation
    done ←
        settle_each db.next_id (open_invoices input (with_payment input db)) input.amount_paise
          (with_payment input db)
    ok (
      record {
        payment_id = db.next_id;
        allocated_paise = input.amount_paise - done.0.0;
        touched_invoice_ids = done.0.1;
      },
      done.1,
    )

  unfoldable pub find_tenancy_for_billing : ℕ → Db → Option Tenancy
  find_tenancy_for_billing tenancy_id db =
      prisma.find_first Tenancy (λ t. t.id == tenancy_id) db.tenancies

  unfoldable pub invoices_for_tenancies : List ℕ → Db → List InvoiceRow
  invoices_for_tenancies tenancy_ids db = map (row_of db.payment_allocations) (
      prisma.find_ordered Invoice (λ v. v.due_date)
        (λ v. any (λ k. k == v.tenancy_id) tenancy_ids && not (is_void v.status)) db.invoices)

  unfoldable pub invoices_by_ids : List ℕ → Db → List InvoiceRow
  invoices_by_ids ids db =
      map (row_of db.payment_allocations)
        (prisma.find_ordered Invoice (λ v. v.due_date) (λ v. any (λ k. k == v.id) ids) db.invoices)

  -- Billed and collected, over the invoices that are not void.
  unfoldable pub collection_totals : ℕ → Db → ℕ × ℕ
  collection_totals property_id db = (
    sum_of (λ (v : Invoice). v.amount_paise)
        (prisma.find_many Invoice (billed_here property_id) db.invoices),
    sum_of (λ (a : PaymentAllocation). a.amount_paise)
        (prisma.find_many PaymentAllocation
          (λ a. any (λ v. (v.id == a.invoice_id) && billed_here property_id v) db.invoices)
          db.payment_allocations),
  )

-- ===== src/Tests/Ledger.antt =====
-- The theorems on invoices and payments, at one tenancy with one open invoice.
use rookopg.Prelude.{
  ℕ, ◌≡◌, ◌≤◌, refl, true, false, none, some, [], ◌∷◌, arith, All, sum_of, min, inl, ◌==◌, one_if,
  ◌⊎◌, select,
}
use rookopg.Calendar.{
  get_utc_date, get_utc_month, get_utc_full_year, date_utc, civil, find_month, month_length,
  month_start,
}
use rookopg.RentCycle.{start_of_day}
use rookopg.RentCycle.Dates.{start_of_day-eq}
use rookopg.Errors.{Result, ok, throw, hide_forbidden}
use rookopg.Iam.{
  assert_property_access, assert_org_access, check_role, check_scope, find_membership,
  platform_staff_may_act, is_platform_staff,
}
use rookopg.Database.{
  Db, Invoice, Tenancy, Property, rent, open_invoice, cash, tenancy_active, ended, Organisation,
  User, active_user, notice_given,
}
use rookopg.Billing.Repository.{
  PaymentInput, Receipt, record_payment, settle_each, list_billable_tenancies,
  find_tenancy_for_billing, create_invoices, invoices_by_ids,
}
use rookopg.Billing.Service.{
  RecordPaymentDto, PaymentReceipt, TenantDues, on_day, generate_for_property, owed_invoices,
  dues_of, take_payment, assert_access,
}
use rookopg.Billing.Ledger.{Balanced, record_payment-Balanced}
use rookopg.Billing.Amounts.{total_due, record_payment-total_due}
use rookopg.Billing.Total.{record_payment_returns}
use rookopg.Billing.Cycle.{
  HasInvoice, due_periods, generate_for_property-Billed, generate_for_property_again,
}
use rookopg.Billing.Dues.{owed_by, sum_of-dues_of}
use rookopg.Tests.ListClient.{list_prisma}
use rookopg.Tests.Samples.{empty_db}
use rookopg.Tests.Rights.{warden}

abbrev pub resident : Tenancy
resident = record {
  id = 70;
  org_id = 7;
  property_id = 8;
  bed_id = 10;
  tenant_user_id = 11;
  booking_id = none;
  start_date = 0;
  end_date = none;
  agreed_rent_paise = 300000;
  deposit_paise = 100000;
  cycle_anchor_day = some 1;
  notice_days = 30;
  status = tenancy_active;
  notice_given_at = none;
  intended_vacate_date = none;
  actual_vacate_date = none;
}

abbrev january : Invoice
january = record {
  id = 71;
  property_id = 8;
  tenancy_id = 70;
  tenant_user_id = 11;
  kind = rent;
  status = open_invoice;
  period_start = 0;
  period_end = 2678400000;
  due_date = 0;
  amount_paise = 300000;
  is_pro_rata = false;
  cycle_key = (1970, 0, 1);
}

abbrev pub let_property : Property
let_property = record {
  id = 8;
  org_id = 7;
  auto_confirm_bookings = true;
  checkin_code_failures = 0;
  checkin_code_locked_until = none;
  deleted_at = none;
}

abbrev letting_org : Organisation
letting_org = record {
  id = 7;
  name = "Letting";
  legal_name = none;
  free_period_months = 0;
  free_period_starts_at = none;
  created_at = 0;
  deleted_at = none;
}

abbrev person : ℕ → User
person k = record { id = k; phone = k; full_name = none; status = active_user }

abbrev pub let_db : Db
let_db = record empty_db {
  next_id = 80;
  organisations = letting_org ∷ [];
  users = person 11 ∷ person 6 ∷ [];
  tenancies = resident ∷ [];
  properties = let_property ∷ [];
}

abbrev owed_db : Db
owed_db = record let_db { invoices = january ∷ [] }

abbrev part : PaymentInput
part = record {
  org_id = 7;
  recorded_by_user_id = 6;
  property_id = 8;
  tenancy_id = 70;
  tenant_user_id = 11;
  amount_paise = 200000;
  method = cash;
  received_at = 0;
  target_invoice_id = none;
}

abbrev outcome : Result (Receipt × Db) → Receipt × Db
outcome (ok r) = r
outcome (throw e) =
    (record { payment_id = 0; allocated_paise = 0; touched_invoice_ids = [] }, empty_db)

abbrev paid : Receipt × Db
paid = outcome (record_payment list_prisma part owed_db)

was_recorded : record_payment list_prisma part owed_db ≡ ok (paid.0, paid.1)
unfolding record_payment settle_each
was_recorded = refl

record_payment-total_due_example : paid.0.allocated_paise ≡ min 200000 (total_due part owed_db)
record_payment-total_due_example =
    record_payment-total_due list_prisma part owed_db paid.1 paid.0 was_recorded

record_payment-Balanced_example : Balanced (λ k. 300000) paid.1
record_payment-Balanced_example =
    record_payment-Balanced list_prisma (λ k. 300000) part owed_db paid.1 paid.0
      ((refl, omega arith, inl refl), tt) was_recorded

once : (k : ℕ) → sum_of (λ (v : Invoice). one_if (v.id == k)) (january ∷ []) ≤ 1
once k = ground arith

record_payment_returns_example :
    (r : Receipt × Db) × (record_payment list_prisma part owed_db ≡ ok r)
record_payment_returns_example =
    record_payment_returns list_prisma part owed_db (omega arith) refl once refl

generate_for_property-Billed_example :
    All
      (λ t.
        t.property_id ≡ 8
        → (t.status ≡ tenancy_active) ⊎ (t.status ≡ notice_given)
        → All
            (HasInvoice (generate_for_property list_prisma 864000000 8 let_db).1.invoices t)
            (due_periods 864000000 t))
      let_db.tenancies
generate_for_property-Billed_example = generate_for_property-Billed list_prisma 864000000 8 let_db

same_day : start_of_day 900000000 ≡ start_of_day 864000000
same_day = omega (arith, start_of_day-eq 900000000, start_of_day-eq 864000000)

generate_for_property_again_example :
    let (first, db1) = generate_for_property list_prisma 864000000 8 let_db in
    let (second, db2) = generate_for_property list_prisma 900000000 8 db1 in
    (second.created ≡ 0) × (db2.invoices ≡ db1.invoices)
generate_for_property_again_example =
    generate_for_property_again list_prisma 864000000 900000000 8 let_db same_day

sum_of-dues_of_example :
    sum_of (λ (d : TenantDues). d.outstanding_paise) (dues_of list_prisma 864000000 8 owed_db)
    ≡ sum_of (owed_by owed_db) (select (λ t. t.property_id == 8) owed_db.tenancies)
sum_of-dues_of_example =
    sum_of-dues_of list_prisma 864000000 8 owed_db (λ paid_up. ground arith, tt)

abbrev payment_dto : RecordPaymentDto
payment_dto = record {
  tenancy_id = 70;
  amount_paise = 200000;
  method = cash;
  received_on = on_day 0;
  invoice_id = none;
}

abbrev receipt_of : Result PaymentReceipt → PaymentReceipt
receipt_of (ok r) = r
receipt_of (throw e) = record {
  payment_id = 0;
  amount_paise = 0;
  allocated_paise = 0;
  credit_paise = 0;
  settled = [];
}

-- The tenancy has ended with the invoice open, so there is nothing more to bill.
abbrev left_db : Db
left_db = record owed_db { tenancies = record resident { status = ended } ∷ [] }

was_taken :
    (take_payment list_prisma 864000000 warden 8 payment_dto left_db).0
    ≡ ok (receipt_of (take_payment list_prisma 864000000 warden 8 payment_dto left_db).0)
unfolding take_payment assert_access hide_forbidden assert_property_access assert_org_access
    check_role check_scope find_membership platform_staff_may_act is_platform_staff
    find_tenancy_for_billing generate_for_property list_billable_tenancies owed_invoices
    create_invoices record_payment settle_each invoices_by_ids start_of_day get_utc_full_year
    get_utc_month get_utc_date date_utc civil find_month month_length month_start
was_taken = refl

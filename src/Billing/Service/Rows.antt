-- ===== src/Billing/Service/Rows.antt =====
-- billing.service.ts: what its operations take and return, tenancy by tenancy and row by row.
use rookopg.Prelude.{
  ℕ, ◌+◌, ◌-◌, ◌*◌, Bool, not, ◌&&◌, ◌||◌, Option, none, some, List, [], ◌∷◌, ◌++◌, map, ltb,
  sum_of, select, if◌then◌else◌,
}
use rookopg.Prelude.Int.{ℤ, pos, ltb_ℤ}
use rookopg.Calendar.{Date, ms_per_day, get_utc_full_year, get_utc_month, get_utc_date}
use rookopg.RentCycle.{RentPeriod, CycleOptions, rent_periods, start_of_day, days_between}
use rookopg.Errors.{Result, ok, throw, conflict}
use rookopg.Iam.{OrgRole, owner, manager}
use rookopg.Database.{CycleKey, InvoiceKind, InvoiceStatus, PaymentMethod, Tenancy, TenancyStatus}
use rookopg.Billing.Repository.{NewInvoice, InvoiceRow}

abbrev pub billing_writers : List OrgRole
billing_writers = owner ∷ manager ∷ []

abbrev pub lookahead_days : ℕ
lookahead_days = 7

-- `YYYY-MM-DD`, as its three parts.
unfoldable pub cycle_key_for : Date → CycleKey
cycle_key_for period_start =
    (get_utc_full_year period_start, get_utc_month period_start, get_utc_date period_start)

abbrev pub cutoff_at : Date → Date
cutoff_at now = start_of_day now + lookahead_days * ms_per_day

abbrev pub cycle_options : Date → Tenancy → CycleOptions
cycle_options cutoff t = record {
  start_date = t.start_date;
  cycle_anchor_day = t.cycle_anchor_day;
  monthly_rent_paise = t.agreed_rent_paise;
  up_to = cutoff;
  end_date = t.end_date;
}

abbrev pub new_invoice : Tenancy → RentPeriod → NewInvoice
new_invoice t period = record {
  property_id = t.property_id;
  tenancy_id = t.id;
  tenant_user_id = t.tenant_user_id;
  period_start = period.period_start;
  period_end = period.period_end;
  due_date = period.due_date;
  amount_paise = period.amount_paise;
  is_pro_rata = period.is_pro_rata;
  cycle_key = cycle_key_for period.period_start;
}

-- The invoices of every period that begins before the cutoff, tenancy by tenancy.
unfoldable pub owed_invoices : Date → List Tenancy → List NewInvoice
owed_invoices cutoff [] = []
owed_invoices cutoff (t ∷ ts) =
    map (new_invoice t) (rent_periods (cycle_options cutoff t)) ++ owed_invoices cutoff ts

pub record GenerateInvoicesResult : Type 0 where
  pub created : ℕ
  pub already_billed : ℕ
  pub tenancies_considered : ℕ

pub record InvoiceDto : Type 0 where
  pub id : ℕ
  pub tenancy_id : ℕ
  pub kind : InvoiceKind
  pub status : InvoiceStatus
  pub period_start : Date
  pub period_end : Date
  pub due_date : Date
  pub amount_paise : ℕ
  pub paid_paise : ℕ
  pub outstanding_paise : ℕ
  pub is_pro_rata : Bool
  pub days_overdue : ℤ

unfoldable pub to_invoice_dto : Date → InvoiceRow → InvoiceDto
to_invoice_dto now (v, paid_paise) =
    let outstanding = v.amount_paise - paid_paise in
    let overdue = ltb 0 outstanding && ltb (start_of_day v.due_date) (start_of_day now) in
    record {
      id = v.id;
      tenancy_id = v.tenancy_id;
      kind = v.kind;
      status = v.status;
      period_start = v.period_start;
      period_end = v.period_end;
      due_date = v.due_date;
      amount_paise = v.amount_paise;
      paid_paise = paid_paise;
      outstanding_paise = outstanding;
      is_pro_rata = v.is_pro_rata;
      days_overdue = if overdue then days_between v.due_date (start_of_day now) else pos 0;
    }

pub record TenantDues : Type 0 where
  pub tenancy_id : ℕ
  pub status : TenancyStatus
  pub monthly_rent_paise : ℕ
  pub outstanding_paise : ℕ
  pub credit_paise : ℕ
  pub oldest_due_date : Option Date
  pub days_overdue : ℤ
  pub invoices : List InvoiceDto

abbrev pub is_unpaid : InvoiceRow → Bool
is_unpaid (v, paid_paise) = ltb paid_paise v.amount_paise

abbrev pub due_of_row : InvoiceRow → ℕ
due_of_row (v, paid_paise) = v.amount_paise - paid_paise

-- The due date of the first row.
abbrev pub first_due : List InvoiceRow → Option Date
first_due [] = none
first_due ((v, paid_paise) ∷ rows) = some v.due_date

abbrev pub or_first : Option Date → Option Date → Option Date
or_first none d = d
or_first (some d) _ = some d

abbrev pub overdue_by : Date → Option Date → ℤ
overdue_by now none = pos 0
overdue_by now (some due_date) = days_between due_date now

unfoldable pub to_dues : Date → Tenancy → List InvoiceRow → ℕ → TenantDues
to_dues now t invoices credit_paise =
    let unpaid = select is_unpaid invoices in
    let overdue =
      select (λ (r : InvoiceRow). ltb (start_of_day r.0.due_date) (start_of_day now)) unpaid in
    record {
      tenancy_id = t.id;
      status = t.status;
      monthly_rent_paise = t.agreed_rent_paise;
      outstanding_paise = sum_of due_of_row unpaid;
      credit_paise = credit_paise;
      oldest_due_date = or_first (first_due overdue) (first_due unpaid);
      days_overdue = overdue_by (start_of_day now) (first_due overdue);
      invoices = map (to_invoice_dto now) invoices;
    }

-- `b.daysOverdue - a.daysOverdue || b.outstandingPaise - a.outstandingPaise` is negative.
abbrev pub more_pressing : TenantDues → TenantDues → Bool
more_pressing a b =
    ltb_ℤ b.days_overdue a.days_overdue
    || (not (ltb_ℤ a.days_overdue b.days_overdue) && ltb b.outstanding_paise a.outstanding_paise)

unfoldable pub insert_dues : TenantDues → List TenantDues → List TenantDues
insert_dues a [] = a ∷ []
insert_dues a (b ∷ bs) = if more_pressing b a then b ∷ insert_dues a bs else a ∷ b ∷ bs

-- `Array.sort`, which keeps the order of equals.
unfoldable pub sort_dues : List TenantDues → List TenantDues
unfolding insert_dues
sort_dues [] = []
sort_dues (a ∷ bs) = insert_dues a (sort_dues bs)

pub record DuesResponse : Type 0 where
  pub billed_paise : ℕ
  pub collected_paise : ℕ
  pub outstanding_paise : ℕ
  pub tenants_in_arrears : ℕ
  pub tenant_count : ℕ
  pub tenants : List TenantDues

-- What the caller wrote as the day of receipt: `new Date` reads it, or cannot.
pub data ReceivedOn : Type 0 where
  not_given unreadable : ReceivedOn
  on_day : Date → ReceivedOn

pub record RecordPaymentDto : Type 0 where
  pub tenancy_id : ℕ
  pub amount_paise : ℕ
  pub method : PaymentMethod
  pub received_on : ReceivedOn
  pub invoice_id : Option ℕ

pub record PaymentReceipt : Type 0 where
  pub payment_id : ℕ
  pub amount_paise : ℕ
  pub allocated_paise : ℕ
  pub credit_paise : ℕ
  pub settled : List InvoiceDto

abbrev pub received_at : Date → ReceivedOn → Result Date
received_at now not_given = ok now
received_at now unreadable = throw (conflict "That is not a valid date.")
received_at now (on_day d) = ok d

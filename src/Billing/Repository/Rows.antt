-- ===== src/Billing/Repository/Rows.antt =====
-- billing.repository.ts: what its methods take, look for and write, row by row.
use rookopg.Prelude.{
  ℕ, ◌+◌, ◌-◌, Bool, true, false, not, ◌&&◌, ◌||◌, Option, none, some, List, [], ◌∷◌, ◌==◌, leb,
  any, sum_of, if◌then◌else◌,
}
use rookopg.Calendar.{Date}
use rookopg.Database.{
  CycleKey, Invoice, InvoiceKind, InvoiceStatus, rent, deposit, one_off, utility, damage,
  open_invoice, partially_paid, paid_invoice, void_invoice, Payment, PaymentMethod, PaymentStatus,
  captured, PaymentAllocation, Tenancy, TenancyStatus, tenancy_active, notice_given, ended,
}

abbrev pub is_current : TenancyStatus → Bool
is_current tenancy_active = true
is_current notice_given = true
is_current ended = false

abbrev pub is_void : InvoiceStatus → Bool
is_void void_invoice = true
is_void _ = false

abbrev pub is_paid : InvoiceStatus → Bool
is_paid paid_invoice = true
is_paid _ = false

-- `OPEN` or `PARTIALLY_PAID`
abbrev pub is_open : InvoiceStatus → Bool
is_open open_invoice = true
is_open partially_paid = true
is_open _ = false

abbrev pub is_captured : PaymentStatus → Bool
is_captured captured = true
is_captured _ = false

pub record NewInvoice : Type 0 where
  pub property_id : ℕ
  pub tenancy_id : ℕ
  pub tenant_user_id : ℕ
  pub period_start : Date
  pub period_end : Date
  pub due_date : Date
  pub amount_paise : ℕ
  pub is_pro_rata : Bool
  pub cycle_key : CycleKey

abbrev pub invoice_of : ℕ → NewInvoice → Invoice
invoice_of id new = record {
  id = id;
  property_id = new.property_id;
  tenancy_id = new.tenancy_id;
  tenant_user_id = new.tenant_user_id;
  kind = rent;
  status = open_invoice;
  period_start = new.period_start;
  period_end = new.period_end;
  due_date = new.due_date;
  amount_paise = new.amount_paise;
  is_pro_rata = new.is_pro_rata;
  cycle_key = new.cycle_key;
}

abbrev pub kind_code : InvoiceKind → ℕ
kind_code rent = 0
kind_code deposit = 1
kind_code one_off = 2
kind_code utility = 3
kind_code damage = 4

abbrev pub same_key : CycleKey → CycleKey → Bool
same_key a b = (a.0 == b.0) && (a.1 == b.1) && (a.2 == b.2)

-- The unique index on tenancy, kind and cycle key.
abbrev pub same_cycle : Invoice → Invoice → Bool
same_cycle a b =
    (a.tenancy_id == b.tenancy_id)
    && (kind_code a.kind == kind_code b.kind)
    && same_key a.cycle_key b.cycle_key

-- The rows that `createMany` gets, each with an id of its own.
abbrev pub numbered : ℕ → List NewInvoice → List Invoice
numbered id [] = []
numbered id (new ∷ rest) = invoice_of id new ∷ numbered (id + 1) rest

-- The sum of the allocations to an invoice.
abbrev pub paid_of : ℕ → List PaymentAllocation → ℕ
paid_of invoice_id = sum_of λ a. if a.invoice_id == invoice_id then a.amount_paise else 0

-- The sum of the allocations from a payment.
abbrev pub allocated_of : ℕ → List PaymentAllocation → ℕ
allocated_of payment_id = sum_of λ a. if a.payment_id == payment_id then a.amount_paise else 0

pub record PaymentInput : Type 0 where
  pub org_id : ℕ
  pub recorded_by_user_id : ℕ
  pub property_id : ℕ
  pub tenancy_id : ℕ
  pub tenant_user_id : ℕ
  pub amount_paise : ℕ
  pub method : PaymentMethod
  pub received_at : Date
  pub target_invoice_id : Option ℕ

-- An invoice that `recordPayment` has read, with the sum of its allocations.
pub record OpenInvoice : Type 0 where
  pub id : ℕ
  pub amount_paise : ℕ
  pub already_paid : ℕ

pub record Receipt : Type 0 where
  pub payment_id : ℕ
  pub allocated_paise : ℕ
  pub touched_invoice_ids : List ℕ

abbrev pub recorded_payment : ℕ → PaymentInput → Payment
recorded_payment id input = record {
  id = id;
  property_id = input.property_id;
  tenancy_id = some input.tenancy_id;
  status = captured;
  method = input.method;
  tenant_user_id = input.tenant_user_id;
  amount_paise = input.amount_paise;
  gateway_order_id = none;
  gateway_payment_id = none;
  received_at = input.received_at;
}

abbrev pub is_target : Option ℕ → ℕ → Bool
is_target none invoice_id = true
is_target (some k) invoice_id = invoice_id == k

abbrev pub is_settleable : PaymentInput → Invoice → Bool
is_settleable input v =
    (v.tenancy_id == input.tenancy_id) && is_open v.status && is_target input.target_invoice_id v.id

abbrev pub with_paid : List PaymentAllocation → Invoice → OpenInvoice
with_paid allocations v = record {
  id = v.id;
  amount_paise = v.amount_paise;
  already_paid = paid_of v.id allocations;
}

abbrev pub outstanding : OpenInvoice → ℕ
outstanding i = i.amount_paise - i.already_paid

abbrev pub same_pair : ℕ → ℕ → PaymentAllocation → Bool
same_pair payment_id invoice_id a = (a.payment_id == payment_id) && (a.invoice_id == invoice_id)

abbrev pub allocation : ℕ → ℕ → ℕ → PaymentAllocation
allocation payment_id invoice_id amount_paise = record {
  payment_id = payment_id;
  invoice_id = invoice_id;
  amount_paise = amount_paise;
}

abbrev pub settled_status : OpenInvoice → ℕ → InvoiceStatus
settled_status i applied =
    if leb i.amount_paise (i.already_paid + applied) then paid_invoice else partially_paid

-- Some invoice of the tenancy is neither void nor paid.
abbrev pub owes : List Invoice → Tenancy → Bool
owes invoices t =
    any (λ v. (v.tenancy_id == t.id) && not (is_void v.status || is_paid v.status)) invoices

abbrev pub distinct_ids : List ℕ → List ℕ
distinct_ids [] = []
distinct_ids (k ∷ ks) =
    let rest = distinct_ids ks in if any (λ j. j == k) rest then rest else k ∷ rest

-- What a payment has left over.
abbrev pub leftover : List PaymentAllocation → Payment → ℕ
leftover allocations p = p.amount_paise - allocated_of p.id allocations

-- An invoice with what has been paid on it.
abbrev pub InvoiceRow : Type 0
InvoiceRow = Invoice × ℕ

abbrev pub row_of : List PaymentAllocation → Invoice → InvoiceRow
row_of allocations v = (v, paid_of v.id allocations)

abbrev pub billed_here : ℕ → Invoice → Bool
billed_here property_id v = (v.property_id == property_id) && not (is_void v.status)

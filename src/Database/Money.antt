-- ===== src/Database/Money.antt =====
-- apps/backend/prisma/schema.prisma: payments and invoices.
use Prim.Native.String.{String}
use rookopg.Prelude.{ℕ, Bool, Option}
use rookopg.Calendar.{Date}

pub data PaymentMethod : Type 0 where
  razorpay_upi cash upi_direct bank_transfer : PaymentMethod

pub data PaymentStatus : Type 0 where
  created authorized captured payment_row_failed refunded partially_refunded : PaymentStatus

pub data InvoiceKind : Type 0 where
  rent deposit one_off utility damage : InvoiceKind

pub data InvoiceStatus : Type 0 where
  open_invoice partially_paid paid_invoice void_invoice written_off : InvoiceStatus

pub record Payment : Type 0 where
  pub id : ℕ
  pub property_id : ℕ
  pub tenancy_id : Option ℕ
  pub status : PaymentStatus
  pub method : PaymentMethod
  pub tenant_user_id : ℕ
  pub amount_paise : ℕ
  pub gateway_order_id : Option ℕ
  pub gateway_payment_id : Option ℕ
  pub received_at : Date

-- A period's key, the date that it starts on: year, month and day.
abbrev pub CycleKey : Type 0
CycleKey = ℕ × ℕ × ℕ

pub record Invoice : Type 0 where
  pub id : ℕ
  pub property_id : ℕ
  pub tenancy_id : ℕ
  pub tenant_user_id : ℕ
  pub kind : InvoiceKind
  pub status : InvoiceStatus
  pub period_start : Date
  pub period_end : Date
  pub due_date : Date
  pub amount_paise : ℕ
  pub is_pro_rata : Bool
  pub cycle_key : CycleKey

pub record PaymentAllocation : Type 0 where
  pub payment_id : ℕ
  pub invoice_id : ℕ
  pub amount_paise : ℕ

pub record PaymentEvent : Type 0 where
  pub gateway_event_id : ℕ
  pub booking_id : Option ℕ
  pub processed_at : Option Date
  pub processing_result : Option String

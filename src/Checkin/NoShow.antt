-- ===== src/Checkin/NoShow.antt =====
-- no-show.job.ts: the hourly sweep over bookings past the grace period whose money is unsettled.
use Prim.Native.String.{String}
use rookopg.Prelude.{ℕ, ◌+◌, ◌-◌, ◌*◌, Bool, none, some, List, [], ◌∷◌, if◌then◌else◌}
use rookopg.Calendar.{Date, ms_per_day}
use rookopg.Errors.{DomainError, Result, ok, throw}
use rookopg.Database.{money_split, Booking, Db}
use rookopg.Database.Client.{Prisma}
use rookopg.Payments.{PaymentGateway, RefundInput, Outcome, no_show_key}
use rookopg.Checkin.Repository.{
  SettlementInput, is_failed, record_settlement, gateway_payment_id_for, find_unsettled_past_grace,
  has_checked_in,
}
use rookopg.Checkin.Service.{release_of, released_settlement, failed_settlement}

pub record SweepCount : Type 0 where
  pub settled : ℕ
  pub retried : ℕ
  pub failed : ℕ

-- The refund of a booking that nobody arrived for: the rent to the owner, the deposit to the tenant.
abbrev pub no_show_refund : Booking → ℕ → RefundInput
no_show_refund b payment_id = record {
  settle = record { payment_id = payment_id; idempotency_key = no_show_key b.id };
  refund_to_tenant_paise = b.agreed_deposit_paise;
  release_to_owner_paise = b.agreed_rent_paise;
}

abbrev pub split_settlement : ℕ → Outcome → SettlementInput
split_settlement booking_id outcome = record {
  booking_id = booking_id;
  status = money_split;
  released_paise = some outcome.released_paise;
  refunded_paise = some outcome.refunded_paise;
  error = none;
}

module _ (prisma : Prisma) (gateway : PaymentGateway) (message_of : DomainError → String) where
  -- The call of the gateway, and what is recorded if it succeeds.
  unfoldable pub settle_one :
      Date → Booking → ℕ → Bool → gateway.State → Db → Result Db × gateway.State
  settle_one now b payment_id arrived g db =
      if arrived
      then (let (released, g') =
            gateway.release_owner_share (release_of prisma gateway message_of b.id payment_id) g in
          (recorded (released_settlement prisma gateway message_of b.id) released, g'))
      else (let (refunded, g') = gateway.refund_to_tenant (no_show_refund b payment_id) g in
          (recorded (split_settlement b.id) refunded, g'))
    where
      recorded : (Outcome → SettlementInput) → Result Outcome → Result Db
      recorded settlement (ok outcome) = record_settlement prisma now (settlement outcome) db
      recorded settlement (throw e) = throw e

  -- The `catch` of one candidate; a failure to record the failure ends the sweep.
  unfoldable pub caught : Date → Booking → Result Db → SweepCount → Db → Result (SweepCount × Db)
  caught now b (ok db') count db = ok (record count { settled = count.settled + 1 }, db')
  caught now b (throw e) count db =
      elim (record_settlement prisma now (failed_settlement prisma gateway message_of b.id e) db) [
        | ok db' ↦ ok (record count { failed = count.failed + 1 }, db')
        | throw e' ↦ throw e'
      ]

  unfoldable pub sweep_each :
      Date
      → List Booking
      → SweepCount
      → gateway.State
      → Db
      → (Result SweepCount × Db) × gateway.State
  sweep_each now [] count g db = ((ok count, db), g)
  sweep_each now (b ∷ rest) count g db = elim (gateway_payment_id_for prisma b.id db) [
    | none ↦ sweep_each now rest count g db
    | some payment_id ↦
        let tried = record count {
          retried = if is_failed b.settlement_status then count.retried + 1 else count.retried;
        } in
        let (outcome, g') = settle_one now b payment_id (has_checked_in prisma b.id db) g db in
        elim (caught now b outcome tried db) [
          | throw e ↦ ((throw e, db), g')
          | ok (count', db') ↦ sweep_each now rest count' g' db'
        ]
  ]

  -- The days of grace are taken off the present time.
  unfoldable pub sweep : ℕ → Date → gateway.State → Db → (Result SweepCount × Db) × gateway.State
  sweep grace_days now g db =
      sweep_each now (find_unsettled_past_grace prisma (now - grace_days * ms_per_day) db)
        (record { settled = 0; retried = 0; failed = 0 }) g db

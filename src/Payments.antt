-- ===== src/Payments.antt =====
-- apps/backend/src/modules/payments/gateway.types.ts: what the backend asks of a payment provider.
-- Order, payment and transfer ids are numbers. The amounts of a transfer are signed: nothing in
-- the types keeps the owner's share from being negative.
pub mod Dev
pub mod Razorpay
use rookopg.Prelude.{ℕ, Bool, true, false, ◌&&◌, Option, List, ◌==◌}
use rookopg.Prelude.Int.{ℤ}
use rookopg.Errors.{Result}

pub record CreateOrderInput : Type 0 where
  pub reference : ℕ
  pub amount_paise : ℕ
  pub owner_share_paise : ℤ
  pub platform_fee_paise : ℕ
  -- the owner's linked account
  pub owner_account_id : Option ℕ

pub record GatewayOrder : Type 0 where
  pub order_id : ℕ
  pub amount_paise : ℕ

-- The keys that the backend makes: `release:${bookingId}` and `no-show:${bookingId}`.
pub data IdempotencyKey : Type 0 where
  release_key : ℕ → IdempotencyKey
  no_show_key : ℕ → IdempotencyKey

abbrev pub same_key : IdempotencyKey → IdempotencyKey → Bool
same_key (release_key a) (release_key b) = a == b
same_key (no_show_key a) (no_show_key b) = a == b
same_key _ _ = false

pub record SettleInput : Type 0 where
  pub payment_id : ℕ
  pub idempotency_key : IdempotencyKey

pub record RefundInput : Type 0 where
  pub settle : SettleInput
  pub open settle use *
  pub refund_to_tenant_paise : ℕ
  pub release_to_owner_paise : ℕ

-- `ReleaseOutcome` and `RefundOutcome` as one object; a property that one of them lacks is empty
-- or 0.
pub record Outcome : Type 0 where
  pub released_transfer_ids : List ℕ
  pub refund_id : Option ℕ
  pub refunded_paise : ℕ
  pub released_paise : ℤ
  pub already_settled : Bool

-- A provider: its state, and the calls that the booking and check-in services make.
pub record PaymentGateway : Type 1 where
  pub State : Type 0
  pub create_order : CreateOrderInput → State → Result GatewayOrder × State
  pub release_owner_share : SettleInput → State → Result Outcome × State
  pub refund_to_tenant : RefundInput → State → Result Outcome × State

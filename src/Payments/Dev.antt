-- ===== src/Payments/Dev.antt =====
-- apps/backend/src/modules/payments/dev.gateway.ts: the development gateway. Each `Map` is a
-- function; a random id is an argument of the call that draws it. Logging is left out.
pub mod Settlement
pub mod Ledger
use rookopg.Prelude.{
  ℕ, ◌+◌, Bool, true, false, not, Option, none, some, List, [], ◌∷◌, ◌==◌, if◌then◌else◌,
}
use rookopg.Prelude.Int.{ℤ, pos, ltb_ℤ, ◌-ℤ◌}
use rookopg.Errors.{Result, ok, throw, gateway_error}
use rookopg.Payments.{
  CreateOrderInput, GatewayOrder, IdempotencyKey, same_key, SettleInput, RefundInput, Outcome,
}

pub record DevTransfer : Type 0 where
  pub id : ℕ
  pub owner_share_paise : ℤ
  pub on_hold : Bool
  pub reversed_paise : ℕ

pub record DevGateway : Type 0 where
  pub orders : ℕ → Option (ℕ × ℕ)
  pub transfers : ℕ → Option DevTransfer
  -- payment id to order id
  pub payment_orders : ℕ → Option ℕ
  pub settled : IdempotencyKey → Option Outcome

abbrev pub insert {ℓ} : {V : Type ℓ} → ℕ → V → (ℕ → Option V) → ℕ → Option V
insert k v m j = if k == j then some v else m j

abbrev pub insert_key {ℓ} :
    {V : Type ℓ} → IdempotencyKey → V → (IdempotencyKey → Option V) → IdempotencyKey → Option V
insert_key k v m j = if same_key k j then some v else m j

unfoldable pub create_order :
    ℕ → ℕ → CreateOrderInput → DevGateway → Result GatewayOrder × DevGateway
create_order order_id transfer_id input g = (
  ok (record { order_id = order_id; amount_paise = input.amount_paise }),
  record g {
    orders = insert order_id (input.amount_paise, input.reference) g.orders;
    transfers =
        insert order_id
          (record {
            id = transfer_id;
            owner_share_paise = input.owner_share_paise;
            on_hold = true;
            reversed_paise = 0;
          })
          g.transfers;
  },
)

-- The part of `verifyWebhook` that changes the state: a verified capture ties payment and order.
unfoldable pub learn_capture : ℕ → ℕ → DevGateway → DevGateway
learn_capture payment_id order_id g = record g {
  payment_orders = insert payment_id order_id g.payment_orders;
}

unfoldable pub transfer_for : DevGateway → ℕ → Option (ℕ × DevTransfer)
transfer_for g payment_id = elim (g.payment_orders payment_id) [
  | none ↦ none
  | some order_id ↦ elim (g.transfers order_id) [ none ↦ none | some t ↦ some (order_id, t) ]
]

abbrev pub repeated : Outcome → Outcome
repeated previous = record previous { already_settled = true }

unfoldable pub release_transfer :
    SettleInput → Option (ℕ × DevTransfer) → DevGateway → Result Outcome × DevGateway
unfolding ◌-ℤ◌
release_transfer input none g = (throw (gateway_error "No held transfer for payment"), g)
release_transfer input (some (order_id, t)) g =
    let outcome =
      let o : Outcome = record {
        released_transfer_ids = t.id ∷ [];
        refund_id = none;
        refunded_paise = 0;
        released_paise = t.owner_share_paise -ℤ pos t.reversed_paise;
        already_settled = false;
      } in
      o in
    if not t.on_hold
    then (
      ok (record {
        released_transfer_ids = [];
        refund_id = none;
        refunded_paise = 0;
        released_paise = pos 0;
        already_settled = true;
      }),
      g,
    )
    else (
      ok outcome,
      record g {
        transfers = insert order_id (record t { on_hold = false }) g.transfers;
        settled = insert_key input.idempotency_key outcome g.settled;
      },
    )

unfoldable pub release_owner_share : SettleInput → DevGateway → Result Outcome × DevGateway
release_owner_share input g = elim (g.settled input.idempotency_key) [
  | some previous ↦ (ok (repeated previous), g)
  | none ↦ release_transfer input (transfer_for g input.payment_id) g
]

unfoldable pub refund_transfer :
    ℕ → RefundInput → Option (ℕ × DevTransfer) → DevGateway → Result Outcome × DevGateway
refund_transfer refund_id input none g = (throw (gateway_error "No held transfer for payment"), g)
refund_transfer refund_id input (some (order_id, t)) g =
    let outcome =
      let o : Outcome = record {
        released_transfer_ids = [];
        refund_id = some refund_id;
        refunded_paise = input.refund_to_tenant_paise;
        released_paise = pos input.release_to_owner_paise;
        already_settled = false;
      } in
      o in
    if not t.on_hold
    then (
      throw (gateway_error "Payment was already released to the owner and cannot be refunded here"),
      g,
    )
    else if ltb_ℤ t.owner_share_paise
        (pos (input.refund_to_tenant_paise + input.release_to_owner_paise))
    then (throw (gateway_error "Refund and release together exceed the amount held"), g)
    else (
      ok outcome,
      record g {
        transfers =
            insert order_id
              (record t { reversed_paise = input.refund_to_tenant_paise; on_hold = false })
              g.transfers;
        settled = insert_key input.idempotency_key outcome g.settled;
      },
    )

unfoldable pub refund_to_tenant : ℕ → RefundInput → DevGateway → Result Outcome × DevGateway
refund_to_tenant refund_id input g = elim (g.settled input.idempotency_key) [
  | some previous ↦ (ok (repeated previous), g)
  | none ↦ refund_transfer refund_id input (transfer_for g input.payment_id) g
]

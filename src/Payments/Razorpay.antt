-- ===== src/Payments/Razorpay.antt =====
-- razorpay.gateway.ts: the gateway over Razorpay's service, which is a parameter. A request gives the
-- service's answer, or nothing where the response is not ok; a missing list of items is empty, and a
-- missing `amount_reversed` is 0. Headers, the log and the cut of a signature's text into bytes are
-- left out.
pub mod Reversals
pub mod Retry
use Prim.Native.String.{String}
use rookopg.Prelude.{
  ℕ, zero, suc, ◌+◌, ◌-◌, Bool, true, false, not, ◌&&◌, Option, none, some, List, [], ◌∷◌, ◌==◌,
  ltb, leb, find, select, min, if◌then◌else◌,
}
use rookopg.Prelude.Int.{ℤ, pos, ◌+ℤ◌, ◌-ℤ◌}
use rookopg.Errors.{Result, ok, throw, DomainError, gateway_error}
use rookopg.Payments.{
  CreateOrderInput, GatewayOrder, SettleInput, RefundInput, Outcome, IdempotencyKey, PaymentGateway,
  same_key,
}

pub record RouteTransfer : Type 0 where
  pub id : ℕ
  pub amount : ℕ
  pub on_hold : Bool
  pub amount_reversed : ℕ

pub record RazorpayRefund : Type 0 where
  pub id : ℕ
  pub amount : ℕ
  pub idempotency_key : Option IdempotencyKey

-- `${RAZORPAY_API}`, by the paths that are called.
pub record RazorpayApi : Type 1 where
  pub State : Type 0
  -- POST /orders, with the transfer to the linked account
  pub post_order : CreateOrderInput → ℕ → State → Option GatewayOrder × State
  -- GET /payments/:id/transfers
  pub get_transfers : ℕ → State → Option (List RouteTransfer) × State
  -- PATCH /transfers/:id, on_hold: false
  pub patch_transfer : ℕ → State → Option (Unit {0}) × State
  -- POST /transfers/:id/reversals
  pub post_reversal : ℕ → ℕ → State → Option (Unit {0}) × State
  -- GET /payments/:id/refunds
  pub get_refunds : ℕ → State → Option (List RazorpayRefund) × State
  -- POST /payments/:id/refund
  pub post_refund : ℕ → ℕ → IdempotencyKey → State → Option RazorpayRefund × State

abbrev pub Calls : Type 0 → Type 0 → Type 0
Calls S A = S → Result A × S

abbrev pub continue_calls : {S A B : Type 0} → Result A → (A → Calls S B) → Calls S B
continue_calls (ok a) f s = f a s
continue_calls (throw e) f s = (throw e, s)

infixl 5 ◌>>=◌ ◌>>◌
abbrev pub ◌>>=◌ : {S A B : Type 0} → Calls S A → (A → Calls S B) → Calls S B
◌>>=◌ m f s = let (r, s') = m s in continue_calls r f s'

abbrev pub ◌>>◌ : {S B : Type 0} → Calls S (Unit {0}) → Calls S B → Calls S B
m >> k = m >>= λ _. k

abbrev pub answer : {S A : Type 0} → A → Calls S A
answer a s = (ok a, s)

abbrev pub refuse : {S A : Type 0} → DomainError → Calls S A
refuse e s = (throw e, s)

-- A response that is not ok is an error.
abbrev pub response : {A : Type 0} → String → Option A → Result A
response what none = throw (gateway_error what)
response what (some a) = ok a

abbrev pub call : {S A : Type 0} → String → (S → Option A × S) → Calls S A
call what request s = let (r, s') = request s in (response what r, s')

-- What the reversal loop can still take back: an amount that is not positive is skipped, so it counts as 0.
abbrev pub available : RouteTransfer → ℕ
available t = t.amount - t.amount_reversed

abbrev pub is_key : IdempotencyKey → RazorpayRefund → Bool
is_key key r = elim r.idempotency_key [ none ↦ false | some k ↦ same_key k key ]

module _ (api : RazorpayApi) where
  -- Without a linked account no order is made.
  unfoldable pub create_order : CreateOrderInput → Calls api.State GatewayOrder
  create_order input s = elim input.owner_account_id [
    | none ↦ (
      throw (
          gateway_error
            "Owner has no Razorpay linked account; refusing to collect money the platform would have to hold."),
      s,
    )
    | some account ↦ call "Could not start the payment. Try again." (api.post_order input account) s
  ]

  unfoldable pub held_transfers : ℕ → Calls api.State (List RouteTransfer)
  held_transfers payment_id = do
    items ← call "transfers" (api.get_transfers payment_id)
    answer (select (λ t. t.on_hold) items)

  -- The loop of `releaseOwnerShare`: the ids are collected in order.
  unfoldable pub release_each : List RouteTransfer → Calls api.State (List ℕ × ℤ)
  release_each [] = answer ([], pos 0)
  release_each (t ∷ held) = do
    call "release" (api.patch_transfer t.id)
    (ids, paise) ← release_each held
    answer (t.id ∷ ids, (pos t.amount -ℤ pos t.amount_reversed) +ℤ paise)

  abbrev pub released : List ℕ → ℤ → Bool → Outcome
  released ids paise already = record {
    released_transfer_ids = ids;
    refund_id = none;
    refunded_paise = 0;
    released_paise = paise;
    already_settled = already;
  }

  unfoldable pub release_held : List RouteTransfer → Calls api.State Outcome
  release_held [] = answer (released [] (pos 0) true)
  release_held (t ∷ held) = do
    (ids, paise) ← release_each (t ∷ held)
    answer (released ids paise false)

  unfoldable pub release_owner_share : SettleInput → Calls api.State Outcome
  release_owner_share input = do held ← held_transfers input.payment_id; release_held held

  -- The loop that pulls money back: with what is left to reverse.
  unfoldable pub reverse_each : List RouteTransfer → ℕ → Calls api.State ℕ
  reverse_each [] to_reverse = answer to_reverse
  reverse_each (t ∷ held) to_reverse =
      let amount = min (available t) to_reverse in
      let skipped = reverse_each held to_reverse in
      let reversed = (do
        call "reversal" (api.post_reversal t.id amount)
        reverse_each held (to_reverse - amount)) in
      if to_reverse == 0 then answer 0 else if amount == 0 then skipped else reversed

  unfoldable pub reverse_for : List RouteTransfer → ℕ → Calls api.State (Unit {0})
  reverse_for held zero = answer tt
  reverse_for held (suc n) = do
    left ← reverse_each held (suc n)
    if left == 0 then answer tt else refuse (gateway_error "Could not reverse enough to refund")

  abbrev pub refunded : RazorpayRefund → ℤ → Bool → Outcome
  refunded refund released_paise already = record {
    released_transfer_ids = [];
    refund_id = some refund.id;
    refunded_paise = refund.amount;
    released_paise = released_paise;
    already_settled = already;
  }

  unfoldable pub release_rest : SettleInput → ℕ → Calls api.State ℤ
  release_rest settle zero = answer (pos 0)
  release_rest settle (suc n) = do
    outcome ← release_owner_share settle
    answer outcome.released_paise

  -- After no refund under the key was found.
  unfoldable pub refund_anew : RefundInput → Calls api.State Outcome
  refund_anew input = do
    held ← held_transfers input.settle.payment_id
    reverse_for held input.refund_to_tenant_paise
    refund ← call "refund" (
        api.post_refund input.settle.payment_id input.refund_to_tenant_paise
          input.settle.idempotency_key)
    released_paise ← release_rest input.settle input.release_to_owner_paise
    answer (refunded refund released_paise false)

  unfoldable pub refund_unless : RefundInput → Option RazorpayRefund → Calls api.State Outcome
  refund_unless input (some mine) = answer (refunded mine (pos 0) true)
  refund_unless input none = refund_anew input

  unfoldable pub refund_to_tenant : RefundInput → Calls api.State Outcome
  refund_to_tenant input = do
    existing ← call "refunds" (api.get_refunds input.settle.payment_id)
    refund_unless input (find (is_key input.settle.idempotency_key) existing)

  abbrev pub razorpay_gateway : PaymentGateway
  razorpay_gateway = record {
    State = api.State;
    create_order = create_order;
    release_owner_share = release_owner_share;
    refund_to_tenant = refund_to_tenant;
  }

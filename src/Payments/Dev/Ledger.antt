-- ===== src/Payments/Dev/Ledger.antt =====
-- The money that leaves a held transfer over any sequence of calls.
use rookopg.Prelude.{
  ◌⊎◌, ℕ, ◌≡◌, Bool, false, Option, none, some, List, [], ◌∷◌, ◌==◌, if◌then◌else◌, arith,
}
use rookopg.Prelude.Int.{ℤ, pos, ◌+ℤ◌, ◌≤ℤ◌, int_laws}
use rookopg.Errors.{Result, ok, throw}
use rookopg.Payments.{SettleInput, RefundInput, Outcome}
use rookopg.Payments.Dev.{
  DevTransfer, DevGateway, release_transfer, release_owner_share, refund_transfer, refund_to_tenant,
  transfer_for, learn_capture,
}

-- What can happen to the gateway after an order has been made.
pub data Call : Type 0 where
  release : SettleInput → Call
  refund : ℕ → RefundInput → Call
  capture : ℕ → ℕ → Call

-- What an answer says was moved just now, to the owner and to the tenant together.
abbrev pub amount_moved : Result Outcome → ℤ
amount_moved (throw e) = pos 0
amount_moved (ok o) = if o.already_settled then pos 0 else o.released_paise +ℤ pos o.refunded_paise

abbrev pub is_order : ℕ → Option ℕ → Bool
is_order k none = false
is_order k (some j) = j == k

-- What a call moves out of the transfer of order `k`.
unfoldable pub moved : ℕ → Call → DevGateway → ℤ
moved k (release input) g =
    if is_order k (g.payment_orders input.payment_id)
    then amount_moved (release_owner_share input g).0
    else pos 0
moved k (refund id input) g =
    if is_order k (g.payment_orders input.payment_id)
    then amount_moved (refund_to_tenant id input g).0
    else pos 0
moved k (capture payment_id order_id) g = pos 0

unfoldable pub after : Call → DevGateway → DevGateway
after (release input) g = (release_owner_share input g).1
after (refund id input) g = (refund_to_tenant id input g).1
after (capture payment_id order_id) g = learn_capture payment_id order_id g

pub total_moved : ℕ → List Call → DevGateway → ℤ
total_moved k [] g = pos 0
total_moved k (c ∷ cs) g = moved k c g +ℤ total_moved k cs (after c g)

-- What can still leave a transfer.
abbrev pub held : Option DevTransfer → ℤ
held none = pos 0
held (some t) = if t.on_hold then t.owner_share_paise else pos 0

-- Nothing has been reversed while a transfer is on hold, and the owner's share is not negative.
abbrev pub IsSound : Option DevTransfer → Type 0
IsSound none = Unit
IsSound (some t) = ((t.on_hold ≡ false) ⊎ (t.reversed_paise ≡ 0)) × (pos 0 ≤ℤ t.owner_share_paise)

-- One call: what it moves and what is held afterwards are within what was held before.
abbrev Step : ℕ → Call → DevGateway → Type 0
Step k c g =
    IsSound ((after c g).transfers k)
    × (pos 0 ≤ℤ moved k c g)
    × (moved k c g +ℤ held ((after c g).transfers k) ≤ℤ held (g.transfers k))

zero-+ℤ : (a : ℤ) → pos 0 +ℤ a ≡ a
unfolding ◌+ℤ◌
zero-+ℤ a = ground arith

release-Step :
    (k : ℕ) (input : SettleInput) (g : DevGateway)
    → IsSound (g.transfers k)
    → Step k (release input) g
unfolding after moved release_owner_share transfer_for release_transfer ◌+ℤ◌
release-Step k input g v = ground arith

refund-Step :
    (k id : ℕ) (input : RefundInput) (g : DevGateway)
    → IsSound (g.transfers k)
    → Step k (refund id input) g
unfolding after moved refund_to_tenant transfer_for refund_transfer ◌+ℤ◌
refund-Step k id input g v = ground arith

call-Step : (k : ℕ) (c : Call) (g : DevGateway) → IsSound (g.transfers k) → Step k c g
call-Step k (release input) g v = release-Step k input g v
call-Step k (refund id input) g v = refund-Step k id input g v
call-Step k (capture p o) g v = (
  unfold after learn_capture in v,
  unfold moved in omega arith,
  unfold after learn_capture moved ◌+ℤ◌ in ground arith,
)

held_nonneg : (o : Option DevTransfer) → IsSound o → pos 0 ≤ℤ held o
held_nonneg none v = omega arith
held_nonneg (some t) v = ground arith

-- Take a transfer whose owner's share is not negative and on which, if it is on hold, nothing has been
-- reversed. Over any sequence of releases, refunds and captures, in any order and with any keys, what
-- leaves it is never more than what was held for it at the start (the owner's share while it is on
-- hold, and nothing once it is not), and never negative.
pub total_moved-le_held :
    (k : ℕ) (calls : List Call) (g : DevGateway)
    → IsSound (g.transfers k)
    → (pos 0 ≤ℤ total_moved k calls g) × (total_moved k calls g ≤ℤ held (g.transfers k))
unfolding total_moved
total_moved-le_held k [] g v = (omega arith, held_nonneg (g.transfers k) v)
total_moved-le_held k (c ∷ cs) g v =
    let (sound, more, le) = call-Step k c g v in
    let rest = total_moved-le_held k cs (after c g) sound in
    (omega (int_laws, more, rest.0), omega (int_laws, le, rest.1))

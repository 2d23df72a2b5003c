-- ===== src/Tests/Razorpay.antt =====
-- A service that keeps a list of refunds, and the Razorpay theorems at one transfer.
use rookopg.Prelude.{
  All, ℕ, ◌≡◌, refl, ◌-◌, true, false, none, some, List, [], ◌∷◌, find, sum_of, min, arith, ==_refl,
}
use rookopg.Prelude.Int.{pos}
use rookopg.Errors.{Result, ok, throw}
use rookopg.Payments.{IdempotencyKey, no_show_key, release_key, same_key, RefundInput, Outcome}
use rookopg.Payments.Razorpay.{
  RazorpayApi, RazorpayRefund, RouteTransfer, ◌>>=◌, answer, is_key, reverse_each, refund_to_tenant,
  refund_unless, refund_anew, held_transfers, reverse_for, release_rest,
}
use rookopg.Payments.Razorpay.Reversals.{
  left_on, IsCovered, reversals, run_reversals, reverse_each_lem,
}
use rookopg.Payments.Razorpay.Retry.{RefundLaws, refund_twice}

abbrev held_transfer : RouteTransfer
held_transfer = record { id = 30; amount = 800000; on_hold = true; amount_reversed = 0 }

-- The first has 200 left to reverse.
abbrev two_transfers : List RouteTransfer
two_transfers = record held_transfer { amount_reversed = 799800 } ∷ held_transfer ∷ []

abbrev pub list_api : RazorpayApi
list_api = record {
  State = List RazorpayRefund;
  post_order = λ input account s. (none, s);
  get_transfers = λ p s. (some (held_transfer ∷ []), s);
  patch_transfer = λ t s. (some tt, s);
  post_reversal = λ t n s. (some tt, s);
  get_refunds = λ p s. (some s, s);
  post_refund = λ p n key s. (
    some (record { id = 1; amount = n; idempotency_key = some key }),
    record { id = 1; amount = n; idempotency_key = some key } ∷ s,
  );
}

abbrev pub no_refunds : List RazorpayRefund
no_refunds = []

same_key_refl : (key : IdempotencyKey) → same_key key key ≡ true
same_key_refl (release_key a) = ==_refl a
same_key_refl (no_show_key a) = ==_refl a

listed_lem :
    (p n : ℕ) (key : IdempotencyKey) (s : List RazorpayRefund) (r : RazorpayRefund)
    → find (is_key key) s ≡ none
    → (list_api.post_refund p n key s).0 ≡ some r
    → find (is_key key) (list_api.post_refund p n key s).1 ≡ some r
listed_lem p n key s r absent made = rw (same_key_refl key) made

read_lem :
    (p : ℕ) (s items : List RazorpayRefund) → (list_api.get_refunds p s).0 ≡ some items → items ≡ s
read_lem p s items h = ground arith

abbrev list_laws : RefundLaws list_api
list_laws = record {
  refunds_of = λ p s. s;
  get_refunds-eq = read_lem;
  get_refunds_keeps = λ p q s. refl;
  get_transfers_keeps = λ p q s. refl;
  patch_transfer_keeps = λ t q s. refl;
  post_reversal_keeps = λ t n q s. refl;
  post_refund_listed = listed_lem;
}

reverse_each_lem_example :
    (reverse_each list_api two_transfers 500 no_refunds
      ≡ (run_reversals list_api (reversals two_transfers 500) >>= λ _.
            answer (500 - sum_of left_on two_transfers))
          no_refunds)
    × (sum_of (λ r. r.1) (reversals two_transfers 500) ≡ min 500 (sum_of left_on two_transfers))
    × All (IsCovered two_transfers) (reversals two_transfers 500)
reverse_each_lem_example = reverse_each_lem list_api two_transfers 500 no_refunds

abbrev refund_request : RefundInput
refund_request = record {
  settle = record { payment_id = 31; idempotency_key = no_show_key 2 };
  refund_to_tenant_paise = 100000;
  release_to_owner_paise = 0;
}

abbrev refund_run : Result Outcome × List RazorpayRefund
refund_run = refund_to_tenant list_api refund_request no_refunds

abbrev outcome_of : Result Outcome → Outcome
outcome_of (ok o) = o
outcome_of (throw e) = record {
  released_transfer_ids = [];
  refund_id = none;
  refunded_paise = 0;
  released_paise = pos 0;
  already_settled = false;
}

was_refunded :
    refund_to_tenant list_api refund_request no_refunds
    ≡ (ok (outcome_of refund_run.0), refund_run.1)
unfolding refund_to_tenant refund_unless refund_anew held_transfers reverse_for release_rest
    reverse_each
was_refunded = refl

refund_twice_example :
    (again : Outcome) × (refund_to_tenant list_api refund_request refund_run.1
      ≡ (ok again, refund_run.1))
    × (again.refund_id ≡ (outcome_of refund_run.0).refund_id)
    × (again.refunded_paise ≡ (outcome_of refund_run.0).refunded_paise)
    × (again.already_settled ≡ true)
refund_twice_example =
    refund_twice list_api list_laws refund_request no_refunds refund_run.1 was_refunded refl

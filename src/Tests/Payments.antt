-- ===== src/Tests/Payments.antt =====
-- The gateway's theorems at one order of 8,000 rupees.
use rookopg.Prelude.{◌≡◌, refl, true, false, none, some, List, [], ◌∷◌, arith}
use rookopg.Prelude.Int.{pos, ◌≤ℤ◌}
use rookopg.Errors.{Result, ok, throw}
use rookopg.Payments.{SettleInput, RefundInput, Outcome, release_key, no_show_key}
use rookopg.Payments.Dev.{
  DevTransfer, DevGateway, release_owner_share, release_transfer, transfer_for, insert,
}
use rookopg.Payments.Dev.Ledger.{Call, release, refund, total_moved, total_moved-le_held, held}

abbrev pub sample_transfer : DevTransfer
sample_transfer = record {
  id = 5;
  owner_share_paise = pos 800000;
  on_hold = true;
  reversed_paise = 0;
}

abbrev pub sample_gateway : DevGateway
sample_gateway = record {
  orders = insert 30 (800500, 2) λ k. none;
  transfers = insert 30 sample_transfer λ k. none;
  payment_orders = insert 31 30 λ k. none;
  settled = λ k. none;
}

abbrev release_input : SettleInput
release_input = record { payment_id = 31; idempotency_key = release_key 2 }

abbrev refund_input : RefundInput
refund_input = record {
  settle = record { payment_id = 31; idempotency_key = no_show_key 2 };
  refund_to_tenant_paise = 100000;
  release_to_owner_paise = 600000;
}

abbrev outcome_of : Result Outcome → Outcome
outcome_of (ok o) = o
outcome_of (throw e) = record {
  released_transfer_ids = [];
  refund_id = none;
  refunded_paise = 0;
  released_paise = pos 0;
  already_settled = false;
}

abbrev release_result : Result Outcome × DevGateway
release_result = release_owner_share release_input sample_gateway

released_first : release_result ≡ (ok (outcome_of release_result.0), release_result.1)
unfolding release_owner_share release_transfer transfer_for
released_first = refl

abbrev calls : List Call
calls = release release_input ∷ refund 70 refund_input ∷ release release_input ∷ []

total_moved-le_held_example :
    (pos 0 ≤ℤ total_moved 30 calls sample_gateway)
    × (total_moved 30 calls sample_gateway ≤ℤ held (some sample_transfer))
total_moved-le_held_example = total_moved-le_held 30 calls sample_gateway (ground arith)

-- ===== src/Tests/Auth.antt =====
-- The theorems on sign-in and rotation, at one challenge and one session.
use rookopg.Prelude.{ℕ, ◌+◌, ◌≡◌, ◌≤◌, ◌<◌, inr, refl, true, some, [], ◌∷◌, arith, is_none}
use rookopg.Errors.{Result, ok, throw, unauthorised, otp_invalid}
use rookopg.Database.{Db, OtpChallenge, AuthSession}
use rookopg.Auth.Repository.{
  new_challenge, new_session, find_otp_challenge, consume_otp_challenge,
  consume_other_challenges_for_phone, find_or_create_user, create_session, count_otp_requests_since,
  create_otp_challenge,
}
use rookopg.Auth.Service.{
  Digests, AuthSettings, AuthDrawn, Issued, hash_otp, verify_otp, accept_code, sign_in, enter,
  user_of_phone, issue_to, issue, request_otp, send_code, rotate,
}
use rookopg.Auth.Challenges.{verify_otp_lem, verify_otp_once}
use rookopg.Auth.Sessions.{Single, live_count, rotate-Single}
use rookopg.Tests.ListClient.{list_prisma}
use rookopg.Tests.Tenancy.{local}
use rookopg.Phone.{normalise_phone, local_part, is_indian_mobile, with_calling_code}
use rookopg.Tests.Samples.{empty_db}

abbrev digests : Digests
digests = record { otp_hmac = λ code phone. code + phone; token_sha256 = λ token. token + 1 }

abbrev settings : AuthSettings
settings = record {
  otp_ttl_seconds = 300;
  otp_max_attempts = 5;
  otp_max_requests = 3;
  otp_request_window_seconds = 900;
  refresh_ttl_seconds = 2592000;
}

abbrev drawn : AuthDrawn
drawn = record { now = 1000; code = 123456; refresh_token = 90; family_id = 91 }

abbrev sent : OtpChallenge
sent = new_challenge 60 0 919876543210 919876666666 300000

abbrev sent_db : Db
sent_db = record empty_db { next_id = 70; otp_challenges = sent ∷ [] }

abbrev issued_of : Result Issued → Issued
issued_of (ok i) = i
issued_of (throw e) = record { user_id = 0; session_id = 0; refresh_token = 0 }

let_in :
    (verify_otp list_prisma digests settings drawn 60 123456 sent_db).0
    ≡ ok (issued_of (verify_otp list_prisma digests settings drawn 60 123456 sent_db).0)
unfolding verify_otp hash_otp find_otp_challenge accept_code consume_otp_challenge sign_in
    user_of_phone consume_other_challenges_for_phone find_or_create_user enter issue_to issue
    create_session
let_in = refl

verify_otp_lem_example :
    (challenge : OtpChallenge) × (find_otp_challenge list_prisma 60 sent_db ≡ some challenge)
    × (is_none challenge.consumed_at ≡ true)
    × (1000 < challenge.expires_at)
    × (challenge.attempts < 5)
    × (hash_otp list_prisma digests settings 123456 challenge.phone ≡ challenge.code_hash)
    × (verify_otp list_prisma digests settings drawn 60 123456 sent_db
        ≡ accept_code list_prisma digests settings drawn challenge sent_db)
verify_otp_lem_example = verify_otp_lem list_prisma digests settings drawn 60 123456 sent_db let_in

verify_otp_once_example :
    (verify_otp list_prisma digests settings drawn 60 123456
      (verify_otp list_prisma digests settings drawn 60 123456 sent_db).1).0
    ≡ throw (unauthorised otp_invalid)
verify_otp_once_example =
    verify_otp_once list_prisma digests settings drawn drawn 60 123456 123456 sent_db let_in

canonical : normalise_phone local ≡ some 919876543210
unfolding normalise_phone local_part is_indian_mobile with_calling_code
canonical = refl

was_sent : (request_otp list_prisma digests settings drawn local sent_db).0 ≡ ok 70
unfolding request_otp send_code count_otp_requests_since create_otp_challenge normalise_phone
    local_part is_indian_mobile with_calling_code
was_sent = refl

abbrev session : AuthSession
session = new_session 61 11 81 92 9000000

abbrev signed_in : Db
signed_in = record empty_db { next_id = 70; auth_sessions = session ∷ [] }

one_live : (family_id : ℕ) → live_count family_id (session ∷ []) ≤ 1
one_live family_id = ground arith

rotate-Single_example :
    Single (rotate list_prisma digests settings drawn session signed_in).1.auth_sessions
rotate-Single_example =
    rotate-Single list_prisma digests settings drawn session signed_in (inr refl, tt) one_live

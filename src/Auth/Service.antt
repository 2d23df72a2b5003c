-- ===== src/Auth/Service.antt =====
-- auth.service.ts and the issue of tokens of token.service.ts. Codes, tokens and digests are numbers. What is read only to be shown, and the signed access token itself, which
-- carries the user and the session, are left out.
use rookopg.Prelude.{
  ℕ, ◌+◌, ◌-◌, ◌*◌, Bool, true, false, not, Option, none, some, List, ◌==◌, leb, if◌then◌else◌,
  is_none, is_some,
}
use rookopg.Calendar.{Date}
use rookopg.Errors.{
  ok, invalid_phone, unauthorised, rate_limited, otp_invalid, otp_expired, otp_too_many_attempts,
  refresh_token_invalid, refresh_token_reused, account_suspended,
}
use rookopg.Database.{User, UserStatus, unclaimed, suspended, OtpChallenge, AuthSession, Db}
use rookopg.Database.Client.{Prisma}
use rookopg.Database.Session.{
  Session, ◌>>=◌, ◌>>◌, pure, fail, reads, writes, require_s, require_some, transact, transact_with,
}
use rookopg.Phone.{normalise_phone}
use rookopg.Auth.Repository.{
  find_or_create_user, claim_user, count_otp_requests_since, create_otp_challenge,
  find_otp_challenge, increment_otp_attempts, consume_otp_challenge,
  consume_other_challenges_for_phone, create_session, find_session_by_token_hash, revoke_session,
  try_revoke_live_session, revoke_family,
}

-- The digests of `node:crypto`: of a code with the phone, under the server's key, and of a token.
pub record Digests : Type 0 where
  pub otp_hmac : ℕ → ℕ → ℕ
  pub token_sha256 : ℕ → ℕ

-- In seconds, but for the two counts.
pub record AuthSettings : Type 0 where
  pub otp_ttl_seconds : ℕ
  pub otp_max_attempts : ℕ
  pub otp_max_requests : ℕ
  pub otp_request_window_seconds : ℕ
  pub refresh_ttl_seconds : ℕ

-- The time, and the random values that an operation draws.
pub record AuthDrawn : Type 0 where
  pub now : Date
  pub code : ℕ
  pub refresh_token : ℕ
  pub family_id : ℕ

pub record Issued : Type 0 where
  pub user_id : ℕ
  pub session_id : ℕ
  pub refresh_token : ℕ

abbrev pub is_suspended : UserStatus → Bool
is_suspended suspended = true
is_suspended _ = false

abbrev pub is_unclaimed : UserStatus → Bool
is_unclaimed unclaimed = true
is_unclaimed _ = false

-- `!user || user.status === SUSPENDED`
abbrev pub may_not_sign_in : Option User → Bool
may_not_sign_in none = true
may_not_sign_in (some u) = is_suspended u.status

module _ (prisma : Prisma) (digests : Digests) (settings : AuthSettings) where
  unfoldable pub hash_otp : ℕ → ℕ → ℕ
  hash_otp code phone = digests.otp_hmac code phone

  unfoldable pub hash_token : ℕ → ℕ
  hash_token token = digests.token_sha256 token

  abbrev pub window_start : Date → Date
  window_start now = now - settings.otp_request_window_seconds * 1000

  -- `requestOtp`, once the number is in canonical form: the id of the challenge.
  unfoldable pub send_code : AuthDrawn → ℕ → Session ℕ
  send_code drawn phone = do
    recent ← reads (count_otp_requests_since prisma phone (window_start drawn.now))
    require_s (not (leb settings.otp_max_requests recent)) rate_limited
    transact_with λ db. ok (
        create_otp_challenge prisma drawn.now phone (hash_otp drawn.code phone)
          (drawn.now + settings.otp_ttl_seconds * 1000) db)

  unfoldable pub request_otp : AuthDrawn → List ℕ → Session ℕ
  request_otp drawn raw_phone = do
    phone ← require_some (normalise_phone raw_phone) invalid_phone
    send_code drawn phone

  unfoldable pub issue : AuthDrawn → ℕ → ℕ → Db → Issued × Db
  issue drawn user_id family_id db =
      let (session_id, db') =
        create_session prisma user_id (hash_token drawn.refresh_token) family_id
          (drawn.now + settings.refresh_ttl_seconds * 1000) db in
      (
        record { user_id = user_id; session_id = session_id; refresh_token = drawn.refresh_token },
        db',
      )

  -- The writes of both as steps of an operation.
  unfoldable pub user_of_phone : ℕ → Session User
  user_of_phone phone = transact_with λ db. ok (find_or_create_user prisma phone db)

  unfoldable pub issue_to : AuthDrawn → ℕ → ℕ → Session Issued
  issue_to drawn user_id family_id = transact_with λ db. ok (issue drawn user_id family_id db)

  -- A wrong code: it is counted, and the last one that is allowed uses the challenge up.
  unfoldable pub reject_code : Date → ℕ → Session Issued
  reject_code now challenge_id = do
    attempts ← transact_with (increment_otp_attempts prisma challenge_id)
    if leb settings.otp_max_attempts attempts
        then transact (consume_otp_challenge prisma now challenge_id)
        else pure tt
    fail (unauthorised otp_invalid)

  -- The user who was found or made for the phone gets a session.
  unfoldable pub enter : AuthDrawn → User → Session Issued
  enter drawn user = do
    require_s (not (is_suspended user.status)) (unauthorised account_suspended)
    if is_unclaimed user.status then transact (claim_user prisma user.id) else pure tt
    issue_to drawn user.id drawn.family_id

  -- Once the challenge is used up: the other ones are, and the user signs in.
  unfoldable pub sign_in : AuthDrawn → OtpChallenge → Session Issued
  sign_in drawn challenge = do
    writes (consume_other_challenges_for_phone prisma drawn.now challenge.phone challenge.id)
    user ← user_of_phone challenge.phone
    enter drawn user

  unfoldable pub accept_code : AuthDrawn → OtpChallenge → Session Issued
  accept_code drawn challenge = do
    transact (consume_otp_challenge prisma drawn.now challenge.id)
    sign_in drawn challenge

  unfoldable pub verify_otp : AuthDrawn → ℕ → ℕ → Session Issued
  verify_otp drawn challenge_id code = do
    found ← reads (find_otp_challenge prisma challenge_id)
    challenge ← require_some found (unauthorised otp_invalid)
    require_s (is_none challenge.consumed_at) (unauthorised otp_invalid)
    require_s (not (leb challenge.expires_at drawn.now)) (unauthorised otp_expired)
    require_s (not (leb settings.otp_max_attempts challenge.attempts))
        (unauthorised otp_too_many_attempts)
    if hash_otp code challenge.phone == challenge.code_hash
        then accept_code drawn challenge
        else reject_code drawn.now challenge.id

  -- A token that was rotated before: every session of its family ends.
  unfoldable pub reuse_detected : Date → AuthSession → Session Issued
  reuse_detected now session = do
    writes (revoke_family prisma now session.family_id)
    fail (unauthorised refresh_token_reused)

  -- `refresh` from the claim on, with the session as it was read: other requests may have come between.
  unfoldable pub rotate : AuthDrawn → AuthSession → Session Issued
  rotate drawn session = do
    claimed ← transact_with λ db. ok (try_revoke_live_session prisma drawn.now session.id db)
    if claimed
        then (do
          issued ← issue_to drawn session.user_id session.family_id
          user ← reads λ db. prisma.find_first User (λ u. u.id == session.user_id) db.users
          require_s (not (may_not_sign_in user)) (unauthorised account_suspended)
          pure issued)
        else reuse_detected drawn.now session

  unfoldable pub refresh : AuthDrawn → ℕ → Session Issued
  refresh drawn refresh_token = do
    found ← reads (find_session_by_token_hash prisma (hash_token refresh_token))
    session ← require_some found (unauthorised refresh_token_invalid)
    if is_some session.revoked_at then reuse_detected drawn.now session else (do
      require_s (not (leb session.expires_at drawn.now)) (unauthorised refresh_token_invalid)
      rotate drawn session)

  -- `logout`, once the session has been read.
  unfoldable pub end_session : Date → Option AuthSession → Session (Unit {0})
  end_session now none = pure tt
  end_session now (some session) =
      if is_none session.revoked_at
      then transact (revoke_session prisma now session.id)
      else pure tt

  unfoldable pub logout : Date → ℕ → Session (Unit {0})
  logout now refresh_token = do
    found ← reads (find_session_by_token_hash prisma (hash_token refresh_token))
    end_session now found

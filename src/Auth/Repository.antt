-- ===== src/Auth/Repository.antt =====
-- auth.repository.ts. The device and the address of a session, which are only kept, are left out.
use rookopg.Prelude.{
  ℕ, ◌+◌, Bool, not, ◌&&◌, Option, none, some, ◌==◌, ltb, leb, length, is_none, is_some,
}
use rookopg.Calendar.{Date}
use rookopg.Errors.{Result, ok, ◌>>=◌}
use rookopg.Database.{User, active_user, OtpChallenge, AuthSession, Db}
use rookopg.Database.Client.{Prisma}

abbrev pub has_challenge_id : ℕ → OtpChallenge → Bool
has_challenge_id id c = c.id == id

abbrev pub has_session_id : ℕ → AuthSession → Bool
has_session_id id s = s.id == id

abbrev pub has_phone : ℕ → User → Bool
has_phone phone u = u.phone == phone

-- Of this phone, and no older than `since`.
abbrev pub is_recent : ℕ → Date → OtpChallenge → Bool
is_recent phone since c = (c.phone == phone) && leb since c.created_at

abbrev pub tried_again : OtpChallenge → OtpChallenge
tried_again c = record c { attempts = c.attempts + 1 }

abbrev pub consumed : Date → OtpChallenge → OtpChallenge
consumed now c = record c { consumed_at = some now }

abbrev pub is_other : ℕ → ℕ → OtpChallenge → Bool
is_other phone except_id c = (c.phone == phone) && is_none c.consumed_at && not (c.id == except_id)

abbrev pub revoked : Date → AuthSession → AuthSession
revoked now s = record s { revoked_at = some now }

abbrev pub is_live_session : ℕ → AuthSession → Bool
is_live_session id s = (s.id == id) && is_none s.revoked_at

abbrev pub is_live_in : ℕ → AuthSession → Bool
is_live_in family_id s = (s.family_id == family_id) && is_none s.revoked_at

abbrev pub new_challenge : ℕ → Date → ℕ → ℕ → Date → OtpChallenge
new_challenge id now phone code_hash expires_at = record {
  id = id;
  phone = phone;
  code_hash = code_hash;
  attempts = 0;
  expires_at = expires_at;
  consumed_at = none;
  created_at = now;
}

abbrev pub new_session : ℕ → ℕ → ℕ → ℕ → Date → AuthSession
new_session id user_id refresh_token_hash family_id expires_at = record {
  id = id;
  user_id = user_id;
  refresh_token_hash = refresh_token_hash;
  family_id = family_id;
  expires_at = expires_at;
  revoked_at = none;
}

-- The counter of the row that was updated.
abbrev pub attempts_of : Option OtpChallenge → ℕ
attempts_of none = 0
attempts_of (some c) = c.attempts

-- `upsert` by phone.
abbrev pub user_for : Prisma → ℕ → Option User → Db → User × Db
user_for prisma phone none db =
    let u : User = record {
      id = db.next_id;
      phone = phone;
      full_name = none;
      status = active_user;
    } in
    (u, record db { next_id = db.next_id + 1; users = prisma.create User u db.users })
user_for prisma phone (some u) db = (u, db)

module _ (prisma : Prisma) where
  unfoldable pub find_or_create_user : ℕ → Db → User × Db
  find_or_create_user phone db =
      user_for prisma phone (prisma.find_first User (has_phone phone) db.users) db

  unfoldable pub claim_user : ℕ → Db → Result Db
  claim_user user_id db = do
    users ←
        prisma.update User (λ u. u.id == user_id) (λ u. record u { status = active_user }) db.users
    ok (record db { users = users })

  unfoldable pub count_otp_requests_since : ℕ → Date → Db → ℕ
  count_otp_requests_since phone since db =
      length (prisma.find_many OtpChallenge (is_recent phone since) db.otp_challenges)

  unfoldable pub create_otp_challenge : Date → ℕ → ℕ → Date → Db → ℕ × Db
  create_otp_challenge now phone code_hash expires_at db = (
    db.next_id,
    record db {
      next_id = db.next_id + 1;
      otp_challenges =
          prisma.create OtpChallenge (new_challenge db.next_id now phone code_hash expires_at)
            db.otp_challenges;
    },
  )

  unfoldable pub find_otp_challenge : ℕ → Db → Option OtpChallenge
  find_otp_challenge id db = prisma.find_first OtpChallenge (has_challenge_id id) db.otp_challenges

  -- With the counter after it.
  unfoldable pub increment_otp_attempts : ℕ → Db → Result (ℕ × Db)
  increment_otp_attempts id db = do
    challenges ← prisma.update OtpChallenge (has_challenge_id id) tried_again db.otp_challenges
    ok (
      attempts_of (prisma.find_first OtpChallenge (has_challenge_id id) challenges),
      record db { otp_challenges = challenges },
    )

  unfoldable pub consume_otp_challenge : Date → ℕ → Db → Result Db
  consume_otp_challenge now id db = do
    challenges ← prisma.update OtpChallenge (has_challenge_id id) (consumed now) db.otp_challenges
    ok (record db { otp_challenges = challenges })

  unfoldable pub consume_other_challenges_for_phone : Date → ℕ → ℕ → Db → Db
  consume_other_challenges_for_phone now phone except_id db = record db {
    otp_challenges =
        prisma.update_many OtpChallenge (is_other phone except_id) (consumed now) db.otp_challenges;
  }

  unfoldable pub create_session : ℕ → ℕ → ℕ → Date → Db → ℕ × Db
  create_session user_id refresh_token_hash family_id expires_at db = (
    db.next_id,
    record db {
      next_id = db.next_id + 1;
      auth_sessions =
          prisma.create AuthSession
            (new_session db.next_id user_id refresh_token_hash family_id expires_at)
            db.auth_sessions;
    },
  )

  unfoldable pub find_session_by_token_hash : ℕ → Db → Option AuthSession
  find_session_by_token_hash refresh_token_hash db =
      prisma.find_first AuthSession (λ s. s.refresh_token_hash == refresh_token_hash)
        db.auth_sessions

  unfoldable pub revoke_session : Date → ℕ → Db → Result Db
  revoke_session now id db = do
    sessions ← prisma.update AuthSession (has_session_id id) (revoked now) db.auth_sessions
    ok (record db { auth_sessions = sessions })

  -- `updateMany` reports how many rows matched.
  unfoldable pub try_revoke_live_session : Date → ℕ → Db → Bool × Db
  try_revoke_live_session now id db = (
    length (prisma.find_many AuthSession (is_live_session id) db.auth_sessions) == 1,
    record db {
      auth_sessions =
          prisma.update_many AuthSession (is_live_session id) (revoked now) db.auth_sessions;
    },
  )

  unfoldable pub revoke_family : Date → ℕ → Db → Db
  revoke_family now family_id db = record db {
    auth_sessions =
        prisma.update_many AuthSession (is_live_in family_id) (revoked now) db.auth_sessions;
  }

  unfoldable pub is_session_live : Date → ℕ → Db → Bool
  is_session_live now session_id db = is_some (
      prisma.find_first AuthSession
        (λ s. (s.id == session_id) && is_none s.revoked_at && ltb now s.expires_at)
        db.auth_sessions)

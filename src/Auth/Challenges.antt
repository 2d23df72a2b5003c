-- ===== src/Auth/Challenges.antt =====
-- One-time codes: who gets in, that a challenge lets in once, and how many are sent.
mod Consumed
pub use Consumed.*
use rookopg.Prelude.{
  ℕ, ◌+◌, ◌*◌, ◌≡◌, ◌≤◌, ◌<◌, refl, sym, ap, ◌∙◌, Bool, true, false, ◌&&◌, some, List, [], ◌∷◌,
  ◌==◌, leb, arith, length, select, All, Bool-cases, Option-cases, inl, inr, is_none, ==_iff,
  leb→lt,
}
use rookopg.Calendar.{Date}
use rookopg.Errors.{Result, Result-cases, >>=-ok, ok, throw, unauthorised, otp_invalid}
use rookopg.Database.{OtpChallenge, User, Db}
use rookopg.Database.Client.{Prisma, changed, update_ok}
use rookopg.Database.Session.{transact}
use rookopg.Database.Keeps.{
  Keeps, transact-Keeps, transact_with-Keeps, >>=-Keeps, require_s-Keeps, if-Keeps, pure-Keeps,
}
use rookopg.Phone.{normalise_phone}
use rookopg.Auth.Repository.{
  has_challenge_id, is_recent, consumed, is_other, find_otp_challenge, consume_otp_challenge,
  increment_otp_attempts, consume_other_challenges_for_phone, find_or_create_user, has_phone,
  claim_user, create_session, count_otp_requests_since, create_otp_challenge, new_challenge,
}
use rookopg.Auth.Service.{
  Digests, AuthSettings, AuthDrawn, Issued, request_otp, send_code, verify_otp, accept_code,
  reject_code, sign_in, enter, issue, issue_to, user_of_phone, hash_otp, window_start,
}

module _ (prisma : Prisma) (digests : Digests) (settings : AuthSettings) where
  reject_code-fails :
      (now : Date) (id : ℕ) (db : Db) {issued : Issued}
      → (reject_code prisma digests settings now id db).0 ≡ ok issued
      → ⊥
  unfolding reject_code
  reject_code-fails now id db h = elim (Result-cases (increment_otp_attempts prisma id db)) [
    | inr (e, thrown) ↦ ground arith
    | inl ((attempts, db'), ran) ↦ elim (Bool-cases (leb settings.otp_max_attempts attempts)) [
      | inr more ↦ ground arith
      | inl last ↦ elim (Result-cases (consume_otp_challenge prisma now id db')) [
        | inr (e, thrown) ↦ ground arith
        | inl (db'', done) ↦ ground arith
      ]
    ]
  ]

  -- A sign-in that succeeds is by the code that was sent for the challenge, which was not used, not expired,
  -- and not tried too often before.
  pub verify_otp_lem :
      (drawn : AuthDrawn) (challenge_id code : ℕ) (db : Db) {issued : Issued}
      → (verify_otp prisma digests settings drawn challenge_id code db).0 ≡ ok issued
      → (challenge : OtpChallenge) × (find_otp_challenge prisma challenge_id db ≡ some challenge)
        × (is_none challenge.consumed_at ≡ true)
        × (drawn.now < challenge.expires_at)
        × (challenge.attempts < settings.otp_max_attempts)
        × (hash_otp prisma digests settings code challenge.phone ≡ challenge.code_hash)
        × (verify_otp prisma digests settings drawn challenge_id code db
            ≡ accept_code prisma digests settings drawn challenge db)
  unfolding verify_otp
  verify_otp_lem drawn challenge_id code db h =
      elim (Option-cases (find_otp_challenge prisma challenge_id db)) [
        | inl missing ↦ ground arith
        | inr (challenge, found) ↦ elim (Bool-cases (is_none challenge.consumed_at)) [
          | inr used ↦ ground arith
          | inl unused ↦ elim (Bool-cases (leb challenge.expires_at drawn.now)) [
            | inl expired ↦ ground arith
            | inr current ↦ elim (Bool-cases (leb settings.otp_max_attempts challenge.attempts)) [
              | inl worn_out ↦ ground arith
              | inr allowed ↦
                  elim (Bool-cases (
                    hash_otp prisma digests settings code challenge.phone == challenge.code_hash)) [
                      | inr wrong ↦ absurd (
                          reject_code-fails drawn.now challenge.id db
                            (rw (found, unused, current, allowed, wrong) at h))
                      | inl right ↦ (
                        challenge,
                        found,
                        unused,
                        ground arith,
                        ground arith,
                        (==_iff _ _).0 right,
                        rw (found, unused, current, allowed, right) refl,
                      )
                    ]
            ]
          ]
        ]
      ]

  found_id :
      (id : ℕ) (db : Db) {c : OtpChallenge}
      → find_otp_challenge prisma id db ≡ some c
      → has_challenge_id id c ≡ true
  unfolding find_otp_challenge
  found_id id db {c} found =
      prisma.find_first-some OtpChallenge (has_challenge_id id) db.otp_challenges c found

  found_gone :
      (id : ℕ) (db : Db) {c : OtpChallenge}
      → Used id db.otp_challenges
      → find_otp_challenge prisma id db ≡ some c
      → (has_challenge_id id c && is_none c.consumed_at) ≡ false
  unfolding find_otp_challenge
  found_gone id db {c} used found =
      prisma.find_first-All OtpChallenge (has_challenge_id id)
        (λ (c : OtpChallenge). (has_challenge_id id c && is_none c.consumed_at) ≡ false)
        db.otp_challenges c used found

  spent_refused :
      (drawn : AuthDrawn) (challenge_id code : ℕ) (db : Db)
      → Used challenge_id db.otp_challenges
      → (verify_otp prisma digests settings drawn challenge_id code db).0
        ≡ throw (unauthorised otp_invalid)
  unfolding verify_otp
  spent_refused drawn challenge_id code db used =
      elim (Option-cases (find_otp_challenge prisma challenge_id db)) [
        | inl missing ↦ rw missing refl
        | inr (c, found) ↦
            let gone : is_none c.consumed_at ≡ false =
              rw (found_id challenge_id db found) at (found_gone challenge_id db used found) in
            rw (found, gone) refl
      ]

  -- Once a challenge has let someone in, it lets no one in again, whatever the code.
  pub verify_otp_once :
      (drawn later : AuthDrawn) (challenge_id code other : ℕ) (db : Db) {issued : Issued}
      → (verify_otp prisma digests settings drawn challenge_id code db).0 ≡ ok issued
      → (verify_otp prisma digests settings later challenge_id other
          (verify_otp prisma digests settings drawn challenge_id code db).1).0
        ≡ throw (unauthorised otp_invalid)
  verify_otp_once drawn later challenge_id code other db h =
      let (challenge, found, unused, current, allowed, right, entered) =
        verify_otp_lem drawn challenge_id code db h in
      let same : challenge.id ≡ challenge_id =
        (==_iff challenge.id challenge_id).0 (found_id challenge_id db found) in
      let db' = (verify_otp prisma digests settings drawn challenge_id code db).1 in
      let accepted : (accept_code prisma digests settings drawn challenge db).0 ≡ ok _ =
        sym (ap (λ r. r.0) entered) ∙ h in
      let used : Used challenge_id db'.otp_challenges =
        moved_id challenge.id challenge_id _ db'.otp_challenges same
          (sym (ap (λ r. r.1.otp_challenges) entered))
          (accept_code-Used prisma digests settings drawn challenge db accepted) in
      spent_refused later challenge_id other db' used

  send_code_limit :
      (drawn : AuthDrawn) (phone : ℕ) (db : Db) {id : ℕ}
      → (send_code prisma digests settings drawn phone db).0 ≡ ok id
      → count_otp_requests_since prisma phone
          (window_start prisma digests settings drawn.now)
          (send_code prisma digests settings drawn phone db).1
        ≤ settings.otp_max_requests
  unfolding send_code count_otp_requests_since create_otp_challenge
  send_code_limit drawn phone db h =
      let recent = is_recent phone (window_start prisma digests settings drawn.now) in
      let new =
        new_challenge db.next_id drawn.now phone (hash_otp prisma digests settings drawn.code phone)
          (drawn.now + settings.otp_ttl_seconds * 1000) in
      elim (Bool-cases (
        leb settings.otp_max_requests
          (length (prisma.find_many OtpChallenge recent db.otp_challenges)))) [
            | inl full ↦ ground arith
            | inr room ↦
                let found = prisma.find_many-eq OtpChallenge recent db.otp_challenges in
                let some_left : leb settings.otp_max_requests
                      (length (select recent db.otp_challenges))
                    ≡ false =
                  rw found at room in
                let is_new : recent new ≡ true = ground arith in
                rw
                  (
                    room,
                    prisma.create-eq OtpChallenge new db.otp_challenges,
                    prisma.find_many-eq OtpChallenge recent (new ∷ db.otp_challenges),
                    is_new,
                  )
                  (omega (
                    arith,
                    leb→lt settings.otp_max_requests (length (select recent db.otp_challenges))
                        some_left,
                  ))
          ]

  -- When a code has been sent, no more than the allowed number were sent to that phone within the window.
  request_otp_limit :
      (drawn : AuthDrawn) (raw_phone : List ℕ) (phone : ℕ) (db : Db) {id : ℕ}
      → normalise_phone raw_phone ≡ some phone
      → (request_otp prisma digests settings drawn raw_phone db).0 ≡ ok id
      → count_otp_requests_since prisma phone
          (window_start prisma digests settings drawn.now)
          (request_otp prisma digests settings drawn raw_phone db).1
        ≤ settings.otp_max_requests
  unfolding request_otp
  request_otp_limit drawn raw_phone phone db normal h =
      rw normal (send_code_limit drawn phone db (rw normal at h))

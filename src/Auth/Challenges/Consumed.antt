-- ===== src/Auth/Challenges/Consumed.antt =====
-- A code that is accepted uses its challenge up, and what follows leaves it so.
use rookopg.Prelude.{
  ℕ, ◌≡◌, sym, ap, ◌∙◌, Bool, false, ◌&&◌, List, [], ◌∷◌, arith, All, Option-cases, inl, inr,
  is_none,
}
use rookopg.Calendar.{Date}
use rookopg.Errors.{Result, Result-cases, >>=-ok, ok, throw}
use rookopg.Database.{OtpChallenge, User, Db}
use rookopg.Database.Client.{Prisma, changed, update_ok}
use rookopg.Database.Session.{transact}
use rookopg.Database.Keeps.{
  Keeps, transact-Keeps, transact_with-Keeps, >>=-Keeps, require_s-Keeps, if-Keeps, pure-Keeps,
}
use rookopg.Auth.Repository.{
  has_challenge_id, consumed, is_other, consume_otp_challenge, consume_other_challenges_for_phone,
  find_or_create_user, has_phone, claim_user, create_session,
}
use rookopg.Auth.Service.{
  Digests, AuthSettings, AuthDrawn, Issued, accept_code, sign_in, enter, issue, issue_to,
  user_of_phone,
}

-- No challenge with this id is still to be used.
abbrev pub Used : ℕ → List OtpChallenge → Type 0
Used id rows =
    All (λ (c : OtpChallenge). (has_challenge_id id c && is_none c.consumed_at) ≡ false) rows

Used-consumed :
    (now : Date) (id : ℕ) (rows : List OtpChallenge)
    → Used id (changed (has_challenge_id id) (consumed now) rows)
Used-consumed now id [] = tt
Used-consumed now id (c ∷ rows) = (ground arith, Used-consumed now id rows)

Used-changed :
    (now : Date) (p : OtpChallenge → Bool) (id : ℕ) (rows : List OtpChallenge)
    → Used id rows
    → Used id (changed p (consumed now) rows)
Used-changed now p id [] h = tt
Used-changed now p id (c ∷ rows) h = (ground arith, Used-changed now p id rows h.1)

abbrev second : {A : Type 0} → Result (A × Db) → Db → Db
second (ok r) db = r.1
second (throw e) db = db

abbrev challenges_of : Result Db → List OtpChallenge → List OtpChallenge
challenges_of (ok db) rows = db.otp_challenges
challenges_of (throw e) rows = rows

carried :
    {A : Type 0} (P : Db → Type 0) (x : A × Db) (a : A) (db : Db) → ok x ≡ ok (a, db) → P x.1 → P db
carried P x a db same h = rw (sym (ap (λ r. second r db) same)) h

pub moved_id :
    (id id' : ℕ) (rows rows' : List OtpChallenge)
    → id ≡ id'
    → rows ≡ rows'
    → Used id rows
    → Used id' rows'
moved_id id id' rows rows' same same' h = rw (sym same, sym same') h

module _ (prisma : Prisma) (digests : Digests) (settings : AuthSettings) where
  consumed-Used :
      (now : Date) (id : ℕ) (db db' : Db)
      → consume_otp_challenge prisma now id db ≡ ok db'
      → Used id db'.otp_challenges
  unfolding consume_otp_challenge
  consumed-Used now id db db' ran =
      let (rows, updated, last) =
        >>=-ok
          {m = prisma.update OtpChallenge (has_challenge_id id) (consumed now) db.otp_challenges}
          ran in
      let same : rows ≡ db'.otp_challenges = ap (λ r. challenges_of r rows) last in
      rw
        (sym same ∙ update_ok prisma (has_challenge_id id) (consumed now) db.otp_challenges updated)
        (Used-consumed now id db.otp_challenges)

  claim_user-Used :
      (user_id id : ℕ) (db db' : Db)
      → Used id db.otp_challenges
      → claim_user prisma user_id db ≡ ok db'
      → Used id db'.otp_challenges
  unfolding claim_user
  claim_user-Used user_id id db db' h ran =
      let same : db'.otp_challenges ≡ db.otp_challenges = ground arith in rw same h

  find_or_create_user-Used :
      (phone id : ℕ) (db : Db)
      → Used id db.otp_challenges
      → Used id (find_or_create_user prisma phone db).1.otp_challenges
  unfolding find_or_create_user
  find_or_create_user-Used phone id db h =
      elim (Option-cases (prisma.find_first User (has_phone phone) db.users)) [
        | inl missing ↦ rw missing h
        | inr (u, found) ↦ rw found h
      ]

  others-Used :
      (now : Date) (phone except_id id : ℕ) (db : Db)
      → Used id db.otp_challenges
      → Used id (consume_other_challenges_for_phone prisma now phone except_id db).otp_challenges
  unfolding consume_other_challenges_for_phone
  others-Used now phone except_id id db h =
      rw
        (prisma.update_many-eq OtpChallenge (is_other phone except_id) (consumed now)
          db.otp_challenges)
        (Used-changed now (is_other phone except_id) id db.otp_challenges h)

  issue-Used :
      (drawn : AuthDrawn) (user_id family_id id : ℕ) (db : Db)
      → Used id db.otp_challenges
      → Used id (issue prisma digests settings drawn user_id family_id db).1.otp_challenges
  unfolding issue create_session
  issue-Used drawn user_id family_id id db h = h

  module _ (id : ℕ) where
    abbrev UsedUp : Db → Type 0
    UsedUp db = Used id db.otp_challenges

    user-UsedUp : (phone : ℕ) → Keeps UsedUp (user_of_phone prisma digests settings phone)
    unfolding user_of_phone
    user-UsedUp phone =
        transact_with-Keeps UsedUp (λ db. ok (find_or_create_user prisma phone db))
          λ db db' u h ran.
            carried UsedUp (find_or_create_user prisma phone db) u db' ran
              (find_or_create_user-Used phone id db h)

    claim-UsedUp : (user_id : ℕ) → Keeps UsedUp (transact (claim_user prisma user_id))
    claim-UsedUp user_id =
        transact-Keeps UsedUp (claim_user prisma user_id) (claim_user-Used user_id id)

    issue-UsedUp :
        (drawn : AuthDrawn) (user_id family_id : ℕ)
        → Keeps UsedUp (issue_to prisma digests settings drawn user_id family_id)
    unfolding issue_to
    issue-UsedUp drawn user_id family_id =
        transact_with-Keeps UsedUp
          (λ db. ok (issue prisma digests settings drawn user_id family_id db))
          λ db db' i h ran.
            carried UsedUp (issue prisma digests settings drawn user_id family_id db) i db' ran
              (issue-Used drawn user_id family_id id db h)

    ruleset used_rules =
        (>>=-Keeps, if-Keeps, pure-Keeps, require_s-Keeps, claim-UsedUp, issue-UsedUp)

    enter-UsedUp :
        (drawn : AuthDrawn) (user : User) → Keeps UsedUp (enter prisma digests settings drawn user)
    unfolding enter
    enter-UsedUp drawn user = search used_rules

    sign_in-UsedUp :
        (drawn : AuthDrawn) (challenge : OtpChallenge)
        → Keeps UsedUp (sign_in prisma digests settings drawn challenge)
    unfolding sign_in
    sign_in-UsedUp drawn challenge db h =
        >>=-Keeps UsedUp (user_of_phone prisma digests settings challenge.phone)
          (enter prisma digests settings drawn) (user-UsedUp challenge.phone) (enter-UsedUp drawn)
          (consume_other_challenges_for_phone prisma drawn.now challenge.phone challenge.id db)
          (others-Used drawn.now challenge.phone challenge.id id db h)

  pub accept_code-Used :
      (drawn : AuthDrawn) (challenge : OtpChallenge) (db : Db) {issued : Issued}
      → (accept_code prisma digests settings drawn challenge db).0 ≡ ok issued
      → Used challenge.id (accept_code prisma digests settings drawn challenge db).1.otp_challenges
  unfolding accept_code
  accept_code-Used drawn challenge db h =
      elim (Result-cases (consume_otp_challenge prisma drawn.now challenge.id db)) [
        | inr (e, thrown) ↦ ground arith
        | inl (db', ran) ↦ rw ran (
            sign_in-UsedUp challenge.id drawn challenge db'
              (consumed-Used drawn.now challenge.id db db' ran))
      ]

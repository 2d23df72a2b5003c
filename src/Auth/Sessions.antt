-- ===== src/Auth/Sessions.antt =====
-- Refresh tokens: a token is good once, and a family has one live session.
mod Live
pub use Live.*
use rookopg.Prelude.{
  ℕ, ◌+◌, ◌*◌, ◌≡◌, ◌≤◌, refl, sym, ap, ◌∙◌, Bool, true, false, some, List, [], ◌∷◌, ◌==◌, any,
  arith, length, select, sum_of, one_if, All, Bool-cases, ◌⊎◌, inl, inr, is_some, ==_iff,
}
use rookopg.Calendar.{Date}
use rookopg.Errors.{throw, unauthorised, refresh_token_reused}
use rookopg.Database.{AuthSession, User, Db}
use rookopg.Database.Client.{Prisma, changed}
use rookopg.Auth.Repository.{
  is_live_session, is_live_in, revoked, new_session, try_revoke_live_session, revoke_family,
  create_session, find_session_by_token_hash,
}
use rookopg.Auth.Service.{
  Digests, AuthSettings, AuthDrawn, issue, issue_to, rotate, refresh, reuse_detected, hash_token,
  may_not_sign_in,
}

module _ (prisma : Prisma) (digests : Digests) (settings : AuthSettings) where
  -- The sessions after a claim.
  abbrev after_claim : AuthDrawn → AuthSession → Db → List AuthSession
  after_claim drawn session db =
      changed (is_live_session session.id) (revoked drawn.now) db.auth_sessions

  abbrev claims_one : AuthSession → Db → Bool
  claims_one session db = length (select (is_live_session session.id) db.auth_sessions) == 1

  abbrev session_after : AuthDrawn → AuthSession → Db → AuthSession
  session_after drawn session db =
      new_session db.next_id session.user_id
        (hash_token prisma digests settings drawn.refresh_token) session.family_id
        (drawn.now + settings.refresh_ttl_seconds * 1000)

  rotate_won :
      (drawn : AuthDrawn) (session : AuthSession) (db : Db)
      → claims_one session db ≡ true
      → (new : AuthSession) × (new.id ≡ db.next_id)
        × (new.family_id ≡ session.family_id)
        × ((rotate prisma digests settings drawn session db).1.auth_sessions
            ≡ new ∷ after_claim drawn session db)
  unfolding rotate issue issue_to create_session try_revoke_live_session
  rotate_won drawn session db h =
      let counted = prisma.find_many-eq AuthSession (is_live_session session.id) db.auth_sessions in
      let ended =
        prisma.update_many-eq AuthSession (is_live_session session.id) (revoked drawn.now)
          db.auth_sessions in
      let new = session_after drawn session db in
      elim (Bool-cases
        (may_not_sign_in (prisma.find_first User (λ u. u.id == session.user_id) db.users))) [
          | inl stopped ↦ (
            new,
            refl,
            refl,
            rw
                (
                  counted,
                  h,
                  ended,
                  prisma.create-eq AuthSession new (after_claim drawn session db),
                  stopped,
                )
                refl,
          )
          | inr goes_on ↦ (
            new,
            refl,
            refl,
            rw
                (
                  counted,
                  h,
                  ended,
                  prisma.create-eq AuthSession new (after_claim drawn session db),
                  goes_on,
                )
                refl,
          )
        ]

  rotate_lost :
      (drawn : AuthDrawn) (session : AuthSession) (db : Db)
      → claims_one session db ≡ false
      → ((rotate prisma digests settings drawn session db).0
          ≡ throw (unauthorised refresh_token_reused))
        × ((rotate prisma digests settings drawn session db).1.auth_sessions
            ≡ changed
                (is_live_in session.family_id)
                (revoked drawn.now)
                (after_claim drawn session db))
  unfolding rotate reuse_detected revoke_family try_revoke_live_session
  rotate_lost drawn session db h =
      let counted = prisma.find_many-eq AuthSession (is_live_session session.id) db.auth_sessions in
      let ended =
        prisma.update_many-eq AuthSession (is_live_session session.id) (revoked drawn.now)
          db.auth_sessions in
      (
        rw (counted, h) refl,
        rw
            (
              counted,
              h,
              ended,
              prisma.update_many-eq AuthSession (is_live_in session.family_id) (revoked drawn.now)
                  (after_claim drawn session db),
            )
            refl,
      )

  -- Whatever came before and whether or not it succeeds, rotating keeps it so that no family has two live
  -- sessions, as long as the sessions with this one's id are of its family.
  pub rotate-Single :
      (drawn : AuthDrawn) (session : AuthSession) (db : Db)
      → IsFamilyOf session.id session.family_id db.auth_sessions
      → Single db.auth_sessions
      → Single (rotate prisma digests settings drawn session db).1.auth_sessions
  rotate-Single drawn session db family h f = elim (Bool-cases (claims_one session db)) [
    | inr lost ↦ rw (rotate_lost drawn session db lost).1 (
        omega (
          arith,
          h f,
          revoked-le drawn.now (is_live_session session.id) f db.auth_sessions,
          revoked-le drawn.now (is_live_in session.family_id) f (after_claim drawn session db),
        ))
    | inl won ↦
        let (new, id, of_family, rows) = rotate_won drawn session db won in
        rw rows (
          new_single new session.family_id f _ db.auth_sessions (after_claim drawn session db)
            of_family
            ((==_iff (length (select (is_live_session session.id) db.auth_sessions)) 1).0 won) (h f)
            (revoked-le drawn.now (is_live_session session.id) f db.auth_sessions)
            (h session.family_id)
            (claimed-eq drawn.now session.id session.family_id db.auth_sessions family))
  ]

  -- A token whose session is not live any more when it is claimed was used before: the request fails, and no
  -- session of the family is live after it.
  rotate_reused :
      (drawn : AuthDrawn) (session : AuthSession) (db : Db)
      → any (is_live_session session.id) db.auth_sessions ≡ false
      → ((rotate prisma digests settings drawn session db).0
          ≡ throw (unauthorised refresh_token_reused))
        × (any
              (is_live_in session.family_id)
              (rotate prisma digests settings drawn session db).1.auth_sessions
            ≡ false)
  rotate_reused drawn session db gone =
      let lost =
        rotate_lost drawn session db
          (select_none (is_live_session session.id) db.auth_sessions gone) in
      (lost.0, rw lost.1 (none_live drawn.now session.family_id (after_claim drawn session db)))

  claimed_once :
      (drawn : AuthDrawn) (session : AuthSession) (db : Db)
      → (db.next_id == session.id) ≡ false
      → any
          (is_live_session session.id)
          (rotate prisma digests settings drawn session db).1.auth_sessions
        ≡ false
  claimed_once drawn session db fresh =
      let gone = none_claimable drawn.now session.id db.auth_sessions in
      elim (Bool-cases (claims_one session db)) [
        | inr lost ↦ rw (rotate_lost drawn session db lost).1 (
            still_none drawn.now (is_live_in session.family_id) session.id
              (after_claim drawn session db) gone)
        | inl won ↦
            let (new, id, of_family, rows) = rotate_won drawn session db won in
            rw rows (rw (id, fresh) gone)
      ]

  -- Of two requests that read the same session, the second to claim it fails, and ends every session of the
  -- family, the one that the first was given too (ids of new sessions are new).
  rotate_twice :
      (first second : AuthDrawn) (session : AuthSession) (db : Db)
      → (db.next_id == session.id) ≡ false
      → let db' = (rotate prisma digests settings first session db).1 in
        ((rotate prisma digests settings second session db').0
          ≡ throw (unauthorised refresh_token_reused))
        × (any
              (is_live_in session.family_id)
              (rotate prisma digests settings second session db').1.auth_sessions
            ≡ false)
  rotate_twice first second session db fresh =
      rotate_reused second session (rotate prisma digests settings first session db).1
        (claimed_once first session db fresh)

  -- A refresh token whose session was revoked before fails, and no session of its family is live after it.
  refresh_reused :
      (drawn : AuthDrawn) (refresh_token : ℕ) (session : AuthSession) (db : Db)
      → find_session_by_token_hash prisma (hash_token prisma digests settings refresh_token) db
        ≡ some session
      → is_some session.revoked_at ≡ true
      → ((refresh prisma digests settings drawn refresh_token db).0
          ≡ throw (unauthorised refresh_token_reused))
        × (any
              (is_live_in session.family_id)
              (refresh prisma digests settings drawn refresh_token db).1.auth_sessions
            ≡ false)
  unfolding refresh reuse_detected revoke_family
  refresh_reused drawn refresh_token session db found used = (
    rw (found, used) refl,
    rw
        (
          found,
          used,
          prisma.update_many-eq AuthSession (is_live_in session.family_id) (revoked drawn.now)
              db.auth_sessions,
        )
        (none_live drawn.now session.family_id db.auth_sessions),
  )

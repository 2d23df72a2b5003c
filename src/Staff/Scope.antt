-- ===== src/Staff/Scope.antt =====
-- A member's scope names properties of the organisation alone.
use rookopg.Prelude.{
  ℕ, ◌≡◌, refl, ap, true, not, ◌&&◌, List, [], ◌∷◌, ◌==◌, any, select, map, arith, Bool-cases,
  Option-cases, inl, inr, All, All-imp, ==_refl, is_none, or_else,
}
use mathlib.Core.Path.{subst}
use rookopg.Errors.{Result, Result-cases, ok, throw}
use rookopg.Iam.{AuthenticatedActor, owner, assert_org_access}
use rookopg.Phone.{normalise_phone}
use rookopg.Database.{OrgMembershipProperty, Property, Db}
use rookopg.Database.Client.{Prisma}
use rookopg.Staff.Repository.{
  MemberInput, add_member, scope_ids, scoped, limited_to, scope_row, owned_property_ids, is_owned,
}
use rookopg.Staff.Service.{AddMemberDto, add_staff, resolve_scope, member_input}
use rookopg.Staff.Owners.{resolve_scope_db}

-- A property of the organisation that is not deleted has this id.
abbrev pub Owns : ℕ → Db → ℕ → Type 0
Owns org_id db k =
    any (λ p. (p.id == k) && (p.org_id == org_id) && is_none p.deleted_at) db.properties ≡ true

owned_ids :
    (org_id : ℕ) (ids : List ℕ) (rows : List Property)
    → All
        (λ k. any (λ p. (p.id == k) && (p.org_id == org_id) && is_none p.deleted_at) rows ≡ true)
        (map (λ p. p.id) (select (is_owned org_id ids) rows))
owned_ids org_id ids [] = tt
owned_ids org_id ids (p ∷ rows) =
    let rest =
      All-imp
        (λ k. any (λ p. (p.id == k) && (p.org_id == org_id) && is_none p.deleted_at) rows ≡ true)
        (λ k.
          any (λ p. (p.id == k) && (p.org_id == org_id) && is_none p.deleted_at) (p ∷ rows) ≡ true)
        (map (λ p. p.id) (select (is_owned org_id ids) rows)) (λ k h. ground arith)
        (owned_ids org_id ids rows) in
    elim (Bool-cases (is_owned org_id ids p)) [
      | inl here ↦ rw here (let self = ==_refl p.id in (ground arith), rest)
      | inr other ↦ rw other rest
    ]

module _ (prisma : Prisma) where
  owned_property_ids-Owns :
      (org_id : ℕ) (ids : List ℕ) (db : Db)
      → All (Owns org_id db) (owned_property_ids prisma org_id ids db)
  unfolding owned_property_ids
  owned_property_ids-Owns org_id [] db = tt
  owned_property_ids-Owns org_id (k ∷ ids) db =
      rw (prisma.find_many-eq Property (is_owned org_id (k ∷ ids)) db.properties)
        (owned_ids org_id (k ∷ ids) db.properties)

  resolve_scope-Owns :
      (org_id : ℕ) (requested : List ℕ) (db : Db) {ids : List ℕ}
      → (resolve_scope prisma org_id requested db).0 ≡ ok ids
      → All (Owns org_id db) ids
  unfolding resolve_scope
  resolve_scope-Owns org_id [] db {ids} h = let same : ids ≡ [] = ground arith in rw same tt
  resolve_scope-Owns org_id (k ∷ requested) db {ids} h =
      let owned = owned_property_ids prisma org_id (k ∷ requested) db in
      let same : owned ≡ ids = ground arith in
      subst (All (Owns org_id db)) same (owned_property_ids-Owns org_id (k ∷ requested) db)

  no_rows_left :
      (k : ℕ) (rows : List OrgMembershipProperty)
      → select (λ s. s.membership_id == k) (select (λ s. not (s.membership_id == k)) rows) ≡ []
  no_rows_left k [] = refl
  no_rows_left k (s ∷ rows) = elim (Bool-cases (s.membership_id == k)) [
    | inl here ↦ rw (here, not) (no_rows_left k rows)
    | inr other ↦ rw (other, not, other) (no_rows_left k rows)
  ]

  limited_rows :
      (k : ℕ) (ids : List ℕ) (rows : List OrgMembershipProperty)
      → select (λ s. s.membership_id == k) rows ≡ []
      → map (λ s. s.property_id) (select (λ s. s.membership_id == k) (limited_to prisma k ids rows))
        ≡ ids
  limited_rows k [] rows h = rw h refl
  limited_rows k (i ∷ ids) rows h =
      rw
        (
          prisma.create-eq OrgMembershipProperty (scope_row k i) (limited_to prisma k ids rows),
          ==_refl k,
        )
        (ap (◌∷◌ i) (limited_rows k ids rows h))

  -- The scope that a member is left with is the one that was set.
  scoped_ids :
      (k : ℕ) (ids : List ℕ) (rows : List OrgMembershipProperty)
      → map
          (λ s. s.property_id)
          (prisma.find_many OrgMembershipProperty
            (λ s. s.membership_id == k)
            (scoped prisma k ids rows))
        ≡ ids
  scoped_ids k ids rows =
      rw
        (
          prisma.find_many-eq OrgMembershipProperty (λ s. s.membership_id == k)
              (scoped prisma k ids rows),
          prisma.delete_many-eq OrgMembershipProperty (λ s. s.membership_id == k) rows,
        )
        (limited_rows k ids _ (no_rows_left k rows))

  add_member-scope :
      (input : MemberInput) (db : Db)
      → scope_ids prisma (add_member prisma input db).0 (add_member prisma input db).1
        ≡ input.property_ids
  unfolding scope_ids add_member
  add_member-scope input db = scoped_ids _ input.property_ids db.membership_properties

  add_staff_ran :
      (actor : AuthenticatedActor) (org_id : ℕ) (dto : AddMemberDto) (db : Db) {id : ℕ} {db' : Db}
      → add_staff prisma actor org_id dto db ≡ (ok id, db')
      → (phone : ℕ) × (ids : List ℕ) × (assert_org_access actor org_id (owner ∷ []) ≡ ok tt)
        × (resolve_scope prisma org_id (or_else dto.property_ids []) db ≡ (ok ids, db))
        × (add_member prisma (member_input prisma org_id phone ids dto) db ≡ (id, db'))
  unfolding add_staff
  add_staff_ran actor org_id dto db {id} {db'} h =
      elim (Result-cases (assert_org_access actor org_id (owner ∷ []))) [
        | inr (e, denied) ↦ absurd (
            let stop : (throw e, db) ≡ (ok id, db') = (rw (denied, add_staff) at h) in ground arith)
        | inl (_, allowed) ↦ elim (Option-cases (normalise_phone dto.phone)) [
          | inl bad ↦ absurd (let stop = (rw (allowed, bad, add_staff) at h) in ground arith)
          | inr (phone, good) ↦
              elim (resolve_scope_db prisma org_id (or_else dto.property_ids []) db) [
                | inr (e, foreign) ↦ absurd (
                    let stop : (throw e, db) ≡ (ok id, db') =
                      (rw (allowed, good, foreign, add_staff) at h) in
                    ground arith)
                | inl (ids, resolved) ↦
                    let rest : (
                      ok (add_member prisma (member_input prisma org_id phone ids dto) db).0,
                      (add_member prisma (member_input prisma org_id phone ids dto) db).1,
                    )
                        ≡ (ok id, db') =
                      (rw (allowed, good, resolved, add_staff) at h) in
                    (phone, ids, allowed, resolved, ground arith)
              ]
        ]
      ]

  -- Where the staff service adds a member, the actor passed the check that asks for an owner, and each
  -- property that the member is then limited to is one of the organisation's that is not deleted.
  pub add_staff_lem :
      (actor : AuthenticatedActor) (org_id : ℕ) (dto : AddMemberDto) (db : Db) {id : ℕ} {db' : Db}
      → add_staff prisma actor org_id dto db ≡ (ok id, db')
      → (assert_org_access actor org_id (owner ∷ []) ≡ ok tt)
        × All (Owns org_id db) (scope_ids prisma id db')
  add_staff_lem actor org_id dto db {id} {db'} h =
      let (phone, ids, allowed, resolved, added) = add_staff_ran actor org_id dto db h in
      let input = member_input prisma org_id phone ids dto in
      let limited : scope_ids prisma id db' ≡ ids =
        subst (λ (r : ℕ × Db). scope_ids prisma r.0 r.1 ≡ ids) added (add_member-scope input db) in
      (
        allowed,
        rw limited (
            resolve_scope-Owns org_id (or_else dto.property_ids []) db
              (ap (λ (r : Result (List ℕ) × Db). r.0) resolved)),
      )

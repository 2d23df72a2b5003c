-- ===== src/Staff/Owners.antt =====
-- An organisation that has an active owner keeps one.
use rookopg.Prelude.{
  ℕ, ◌≡◌, ◌⊎◌, refl, sym, ap, ◌∙◌, ◌<◌, Bool, true, false, not, ◌&&◌, Option, none, some, List, [],
  ◌∷◌, ◌==◌, leb, leb→lt, length, select, if◌then◌else◌, arith, Bool-cases, Option-cases, inl, inr,
  All, All-imp, All-All, any, ==_iff,
}
use rookopg.Calendar.{Date}
use rookopg.Database.Session.{pure}
use rookopg.Errors.{DomainError, Result-cases, ok, throw, conflict, not_found}
use rookopg.Iam.{
  AuthenticatedActor, OrgRole, owner, manager, same_role, non_empty, assert_org_access,
}
use rookopg.Database.{OrgMembership, Db}
use rookopg.Database.Client.{Prisma, changed, update_ok}
use rookopg.Staff.Repository.{
  is_active_owner, has_member_id, find_member, count_active_owners, update_member, deactivate,
  set_member, owned_property_ids,
}
use rookopg.Staff.Service.{
  UpdateMemberDto, update_staff, remove_staff, assert_not_last_owner, resolve_scope, resolve_given,
  is_manager, changes_role,
}
use rookopg.Staff.Members.{
  owners, DistinctIds, changed-owners, changed-owners_same, same_roles, owner_stays,
}

module _ (prisma : Prisma) where
  deactivate_rows :
      (now : Date) (membership_id user_id : ℕ) (db : Db) {db' : Db}
      → deactivate prisma now membership_id user_id db ≡ ok db'
      → db'.org_memberships
        ≡ changed
            (has_member_id membership_id)
            (λ m. record m { active = false })
            db.org_memberships
  unfolding deactivate
  deactivate_rows now membership_id user_id db h =
      elim (Result-cases (
        prisma.update OrgMembership (has_member_id membership_id) (λ m. record m { active = false })
          db.org_memberships)) [
            | inl (rows, made) ↦
                let same =
                  update_ok prisma (has_member_id membership_id) (λ m. record m { active = false })
                    db.org_memberships made in
                ground arith
            | inr (e, thrown) ↦ ground arith
          ]

  update_member_rows :
      (membership_id : ℕ) (role : Option OrgRole) (can_create : Option Bool) (ids : Option (List ℕ))
      (db : Db) {db' : Db}
      → update_member prisma membership_id role can_create ids db ≡ ok db'
      → db'.org_memberships
        ≡ changed (has_member_id membership_id) (set_member role can_create) db.org_memberships
  unfolding update_member
  update_member_rows membership_id role can_create ids db h =
      elim (Result-cases (
        prisma.update OrgMembership (has_member_id membership_id) (set_member role can_create)
          db.org_memberships)) [
            | inl (rows, made) ↦
                let same =
                  update_ok prisma (has_member_id membership_id) (set_member role can_create)
                    db.org_memberships made in
                ground arith
            | inr (e, thrown) ↦ ground arith
          ]

  -- The rows with the id of a member that was found have that member's role.
  found_roles :
      (org_id membership_id : ℕ) (db : Db) {m : OrgMembership}
      → DistinctIds db.org_memberships
      → find_member prisma org_id membership_id db ≡ some m
      → All (λ m'. m'.id ≡ membership_id → m'.role ≡ m.role) db.org_memberships
  unfolding find_member
  found_roles org_id membership_id db {m} h found =
      let test = λ (m : OrgMembership). (m.id == membership_id) && (m.org_id == org_id) in
      let all =
        prisma.find_first-All OrgMembership test
          (λ m. All (λ m'. m'.id ≡ m.id → m'.role ≡ m.role) db.org_memberships) db.org_memberships m
          (same_roles db.org_memberships h) found in
      let matched = prisma.find_first-some OrgMembership test db.org_memberships m found in
      let same : m.id ≡ membership_id = ground (arith, ==_iff m.id membership_id) in
      All-imp (λ m'. m'.id ≡ m.id → m'.role ≡ m.role)
        (λ m'. m'.id ≡ membership_id → m'.role ≡ m.role) db.org_memberships
        (λ m' k e. k (e ∙ sym same)) all

  many_owners :
      (org_id : ℕ) (db : Db)
      → leb (count_active_owners prisma org_id db) 1 ≡ false
      → 1 < owners org_id db.org_memberships
  unfolding count_active_owners
  many_owners org_id db h =
      rw
        (sym (
          ap length
            (prisma.find_many-eq OrgMembership (is_active_owner org_id) db.org_memberships)))
        (leb→lt _ 1 h)

  -- Taking the role or the membership from the member that was found keeps an owner.
  kept_owner :
      (org_id membership_id : ℕ) (db : Db) (f : OrgMembership → OrgMembership) (m : OrgMembership)
      → DistinctIds db.org_memberships
      → 0 < owners org_id db.org_memberships
      → find_member prisma org_id membership_id db ≡ some m
      → (same_role m.role owner ≡ true → 1 < owners org_id db.org_memberships)
      → 0 < owners org_id (changed (has_member_id membership_id) f db.org_memberships)
  kept_owner org_id membership_id db f m h some_owner found many =
      elim (Bool-cases (same_role m.role owner)) [
        | inl owns ↦
            omega (arith, changed-owners org_id membership_id f db.org_memberships h, many owns)
        | inr manages ↦ omega (
          arith,
          some_owner,
          changed-owners_same org_id membership_id f db.org_memberships (
              All-imp (λ m'. m'.id ≡ membership_id → m'.role ≡ m.role)
                (λ m'.
                  m'.id ≡ membership_id
                  → is_active_owner org_id m' ≡ true
                  → is_active_owner org_id (f m') ≡ true)
                db.org_memberships (λ m' k e owns. absurd (let role = k e in (ground arith)))
                (found_roles org_id membership_id db h found)),
        )
      ]

  last_owner_guard :
      (b : Bool) (org_id : ℕ) (db : Db)
      → ((if b then assert_not_last_owner prisma org_id else pure tt) db ≡ (ok tt, db))
        ⊎ ((e : DomainError) × ((if b then assert_not_last_owner prisma org_id else pure tt) db
              ≡ (throw e, db)))
  unfolding assert_not_last_owner
  last_owner_guard false org_id db = inl refl
  last_owner_guard true org_id db =
      elim (Bool-cases (leb (count_active_owners prisma org_id db) 1)) [
        | inl last ↦ inr (
          conflict "You cannot do this to the last owner. Add another owner first.",
          rw last refl,
        )
        | inr more ↦ inl (rw more refl)
      ]

  guarded_many :
      (b : Bool) (org_id : ℕ) (db : Db)
      → (if b then assert_not_last_owner prisma org_id else pure tt) db ≡ (ok tt, db)
      → b ≡ true
      → 1 < owners org_id db.org_memberships
  unfolding assert_not_last_owner
  guarded_many b org_id db h true_b =
      elim (Bool-cases (leb (count_active_owners prisma org_id db) 1)) [
        | inl last ↦ ground (arith, true_b)
        | inr more ↦ many_owners org_id db more
      ]

  remove_keeps :
      (now : Date) (actor : AuthenticatedActor) (org_id membership_id : ℕ) (db : Db)
      → DistinctIds db.org_memberships
      → 0 < owners org_id db.org_memberships
      → 0 < owners org_id (remove_staff prisma now actor org_id membership_id db).1.org_memberships
  unfolding remove_staff
  remove_keeps now actor org_id membership_id db h some_owner =
      elim (Result-cases (assert_org_access actor org_id (owner ∷ []))) [
        | inr (e, denied) ↦ rw (denied, remove_staff) some_owner
        | inl (_, allowed) ↦ elim (Option-cases (find_member prisma org_id membership_id db)) [
          | inl missing ↦ rw (allowed, missing, remove_staff) some_owner
          | inr (m, found) ↦ elim (Bool-cases (m.user_id == actor.user_id)) [
            | inl self ↦ rw (allowed, found, self, remove_staff) some_owner
            | inr other ↦ elim (last_owner_guard (same_role m.role owner) org_id db) [
              | inr (e, last) ↦ rw (allowed, found, other, last, remove_staff) some_owner
              | inl passed ↦
                  elim (Result-cases (deactivate prisma now membership_id m.user_id db)) [
                    | inr (e, thrown) ↦
                        rw (allowed, found, other, passed, thrown, remove_staff) some_owner
                    | inl (db', done) ↦
                        rw
                          (
                            allowed,
                            found,
                            other,
                            passed,
                            done,
                            remove_staff,
                            deactivate_rows now membership_id m.user_id db done,
                          )
                          (kept_owner org_id membership_id db _ m h some_owner found
                            (guarded_many (same_role m.role owner) org_id db passed))
                  ]
            ]
          ]
        ]
      ]

  pub resolve_scope_db :
      (org_id : ℕ) (requested : List ℕ) (db : Db)
      → ((ids : List ℕ) × (resolve_scope prisma org_id requested db ≡ (ok ids, db)))
        ⊎ ((e : DomainError) × (resolve_scope prisma org_id requested db ≡ (throw e, db)))
  unfolding resolve_scope
  resolve_scope_db org_id [] db = inl ([], refl)
  resolve_scope_db org_id (k ∷ requested) db =
      let owned = owned_property_ids prisma org_id (k ∷ requested) db in
      elim (Bool-cases
        (not (non_empty (select (λ id. not (any (λ o. o == id) owned)) (k ∷ requested))))) [
          | inl own ↦ inl (owned, rw own refl)
          | inr foreign ↦ inr (not_found "Property", rw foreign refl)
        ]

  resolve_given_db :
      (org_id : ℕ) (requested : Option (List ℕ)) (db : Db)
      → ((ids : Option (List ℕ)) × (resolve_given prisma org_id requested db ≡ (ok ids, db)))
        ⊎ ((e : DomainError) × (resolve_given prisma org_id requested db ≡ (throw e, db)))
  unfolding resolve_given
  resolve_given_db org_id none db = inl (none, refl)
  resolve_given_db org_id (some requested) db = elim (resolve_scope_db org_id requested db) [
    | inl (ids, ran) ↦ inl (some ids, rw ran refl)
    | inr (e, thrown) ↦ inr (e, rw thrown refl)
  ]

  -- The update of a member that was found, after the check on the last owner.
  set_kept :
      (org_id membership_id : ℕ) (db : Db) (role : Option OrgRole) (can_create : Option Bool)
      (m : OrgMembership)
      → DistinctIds db.org_memberships
      → 0 < owners org_id db.org_memberships
      → find_member prisma org_id membership_id db ≡ some m
      → ((same_role m.role owner && is_manager role) ≡ true → 1 < owners org_id db.org_memberships)
      → 0
        < owners org_id
            (changed (has_member_id membership_id) (set_member role can_create) db.org_memberships)
  set_kept org_id membership_id db (some manager) can_create m h some_owner found many =
      kept_owner org_id membership_id db (set_member (some manager) can_create) m h some_owner found
        (λ owns. many (rw owns refl))
  set_kept org_id membership_id db (some owner) can_create m h some_owner found many = omega (
    arith,
    some_owner,
    changed-owners_same org_id membership_id (set_member (some owner) can_create) db.org_memberships
        (All-All _ db.org_memberships
          (owner_stays org_id membership_id (some owner) can_create refl)),
  )
  set_kept org_id membership_id db none can_create m h some_owner found many = omega (
    arith,
    some_owner,
    changed-owners_same org_id membership_id (set_member none can_create) db.org_memberships
        (All-All _ db.org_memberships (owner_stays org_id membership_id none can_create refl)),
  )

  update_keeps :
      (actor : AuthenticatedActor) (org_id membership_id : ℕ) (dto : UpdateMemberDto) (db : Db)
      → DistinctIds db.org_memberships
      → 0 < owners org_id db.org_memberships
      → 0 < owners org_id (update_staff prisma actor org_id membership_id dto db).1.org_memberships
  unfolding update_staff
  update_keeps actor org_id membership_id dto db h some_owner =
      elim (Result-cases (assert_org_access actor org_id (owner ∷ []))) [
        | inr (e, denied) ↦ rw (denied, update_staff) some_owner
        | inl (_, allowed) ↦ elim (Option-cases (find_member prisma org_id membership_id db)) [
          | inl missing ↦ rw (allowed, missing, update_staff) some_owner
          | inr (m, found) ↦
              elim (Bool-cases ((m.user_id == actor.user_id) && changes_role dto.role m.role)) [
                | inl self ↦ rw (allowed, found, self, update_staff) some_owner
                | inr other ↦
                    elim (last_owner_guard (same_role m.role owner && is_manager dto.role) org_id
                      db) [
                        | inr (e, last) ↦ rw (allowed, found, other, last, update_staff) some_owner
                        | inl passed ↦ elim (resolve_given_db org_id dto.property_ids db) [
                          | inr (e, foreign) ↦
                              rw (allowed, found, other, passed, foreign, update_staff) some_owner
                          | inl (ids, resolved) ↦
                              elim (Result-cases (
                                update_member prisma membership_id dto.role
                                  dto.can_create_properties ids db)) [
                                    | inr (e, thrown) ↦
                                        rw
                                          (
                                            allowed, found, other, passed, resolved, thrown,
                                            update_staff,
                                          )
                                          some_owner
                                    | inl (db', done) ↦
                                        rw
                                          (
                                            allowed,
                                            found,
                                            other,
                                            passed,
                                            resolved,
                                            done,
                                            update_staff,
                                            update_member_rows membership_id dto.role
                                                dto.can_create_properties ids db done,
                                          )
                                          (set_kept org_id membership_id db dto.role
                                            dto.can_create_properties m h some_owner found
                                            (guarded_many
                                              (same_role m.role owner && is_manager dto.role) org_id
                                              db passed))
                                  ]
                        ]
                      ]
              ]
        ]
      ]

  -- Where memberships have ids of their own and an organisation has an active owner, changing or
  -- removing any member through the staff service, whether or not it throws, leaves it an active owner.
  pub staff-owners :
      (now : Date) (actor : AuthenticatedActor) (org_id membership_id : ℕ) (dto : UpdateMemberDto)
      (db : Db)
      → DistinctIds db.org_memberships
      → 0 < owners org_id db.org_memberships
      → (0
          < owners org_id (update_staff prisma actor org_id membership_id dto db).1.org_memberships)
        × (0
            < owners org_id
                (remove_staff prisma now actor org_id membership_id db).1.org_memberships)
  staff-owners now actor org_id membership_id dto db h some_owner = (
    update_keeps actor org_id membership_id dto db h some_owner,
    remove_keeps now actor org_id membership_id db h some_owner,
  )

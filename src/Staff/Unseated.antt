-- ===== src/Staff/Unseated.antt =====
-- Whom adding a member can unseat.
use rookopg.Prelude.{
  ℕ, ◌+◌, ◌≡◌, refl, false, not, ◌&&◌, some, List, [], ◌∷◌, ◌==◌, any, arith, Bool-cases,
  Option-cases, inl, inr, All,
}
use rookopg.Iam.{manager}
use rookopg.Database.{OrgMembership, User, Db}
use rookopg.Database.Client.{Prisma, changed}
use rookopg.Staff.Repository.{
  MemberInput, add_member, is_member, is_active_owner, rejoined, joined_member,
}
use rookopg.Staff.Members.{owners}

module _ (prisma : Prisma) where
  rejoined_none :
      (input : MemberInput) (user_id : ℕ) (rows : List OrgMembership)
      → input.role ≡ manager
      → All (λ m. (is_active_owner input.org_id m && not (m.user_id == user_id)) ≡ false) rows
      → owners input.org_id (changed (is_member input.org_id user_id) (rejoined input) rows) ≡ 0
  rejoined_none input user_id [] h alone = refl
  rejoined_none input user_id (m ∷ rows) h alone =
      let rest = rejoined_none input user_id rows h alone.1 in
      elim (Bool-cases (is_member input.org_id user_id m)) [
        | inl here ↦ ground arith
        | inr other ↦ ground arith
      ]

  absent_none :
      (org_id user_id : ℕ) (rows : List OrgMembership)
      → any (is_member org_id user_id) rows ≡ false
      → All (λ m. (is_active_owner org_id m && not (m.user_id == user_id)) ≡ false) rows
      → owners org_id rows ≡ 0
  absent_none org_id user_id [] h alone = refl
  absent_none org_id user_id (m ∷ rows) h alone = ground (arith, absent_none org_id user_id rows)

  -- Adding the person who is the organisation's one active owner, as a manager, leaves it without any:
  -- unlike a change or a removal, adding does not count the owners.
  add_member-unseats :
      (input : MemberInput) (db : Db) (u : User)
      → input.role ≡ manager
      → prisma.find_first User (λ u. u.phone == input.phone) db.users ≡ some u
      → All
          (λ m. (is_active_owner input.org_id m && not (m.user_id == u.id)) ≡ false)
          db.org_memberships
      → owners input.org_id (add_member prisma input db).1.org_memberships ≡ 0
  unfolding add_member
  add_member-unseats input db u role known alone =
      elim (Option-cases
        (prisma.find_first OrgMembership (is_member input.org_id u.id) db.org_memberships)) [
          | inr (m, found) ↦
              rw
                (
                  known,
                  found,
                  prisma.update_many-eq OrgMembership (is_member input.org_id u.id) (rejoined input)
                      db.org_memberships,
                )
                (rejoined_none input u.id db.org_memberships role alone)
          | inl missing ↦
              rw
                (
                  known,
                  missing,
                  prisma.create-eq OrgMembership (joined_member input (db.next_id + 1) u.id)
                      db.org_memberships,
                )
                (let none_there =
                    prisma.find_first-none OrgMembership (is_member input.org_id u.id)
                      db.org_memberships missing in
                  ground (arith, absent_none input.org_id u.id db.org_memberships none_there alone))
        ]

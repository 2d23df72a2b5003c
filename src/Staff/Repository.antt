-- ===== src/Staff/Repository.antt =====
-- staff.repository.ts. The foreign keys say that a membership's user and its organisation are there; the
-- columns that an answer only displays, and the order of a list, are left out.
use Prim.Native.String.{String}
use rookopg.Prelude.{
  ℕ, ◌+◌, Bool, true, false, ◌&&◌, Option, none, some, List, [], ◌∷◌, ◌==◌, any, map, length,
  is_none,
}
use rookopg.Calendar.{Date}
use rookopg.Errors.{Result, ok, ◌>>=◌}
use rookopg.Iam.{OrgRole, owner, same_role}
use rookopg.Database.{
  OrgMembership, OrgMembershipProperty, User, unclaimed, Property, AuthSession, Db,
}
use rookopg.Database.Client.{Prisma}

-- A membership with the properties that it is limited to.
pub record MemberRecord : Type 0 where
  pub membership : OrgMembership
  pub property_ids : List ℕ

pub record MemberInput : Type 0 where
  pub org_id : ℕ
  pub phone : ℕ
  pub full_name : Option String
  pub role : OrgRole
  pub can_create_properties : Bool
  pub property_ids : List ℕ

abbrev pub has_member_id : ℕ → OrgMembership → Bool
has_member_id k m = m.id == k

abbrev pub is_member : ℕ → ℕ → OrgMembership → Bool
is_member org_id user_id m = (m.org_id == org_id) && (m.user_id == user_id)

abbrev pub is_active_owner : ℕ → OrgMembership → Bool
is_active_owner org_id m = (m.org_id == org_id) && same_role m.role owner && m.active

abbrev pub is_owned : ℕ → List ℕ → Property → Bool
is_owned org_id ids p = (p.org_id == org_id) && is_none p.deleted_at && any (λ k. k == p.id) ids

abbrev pub set_role : Option OrgRole → OrgMembership → OrgMembership
set_role none m = m
set_role (some r) m = record m { role = r }

abbrev pub set_flag : Option Bool → OrgMembership → OrgMembership
set_flag none m = m
set_flag (some c) m = record m { can_create_properties = c }

-- The columns that an `update` sets, where they are given.
abbrev pub set_member : Option OrgRole → Option Bool → OrgMembership → OrgMembership
set_member role can_create m = set_flag can_create (set_role role m)

abbrev pub joined_member : MemberInput → ℕ → ℕ → OrgMembership
joined_member input id user_id = record {
  id = id;
  org_id = input.org_id;
  user_id = user_id;
  role = input.role;
  active = true;
  can_create_properties = input.can_create_properties;
}

abbrev pub rejoined : MemberInput → OrgMembership → OrgMembership
rejoined input m = record m {
  role = input.role;
  can_create_properties = input.can_create_properties;
  active = true;
}

-- `upsert` by phone: the user's id, and the users.
abbrev pub upserted_user : Prisma → MemberInput → ℕ → Option User → List User → ℕ × List User
upserted_user prisma input id none users = (
  id,
  prisma.create User
      (record { id = id; phone = input.phone; full_name = input.full_name; status = unclaimed })
      users,
)
upserted_user prisma input id (some u) users = (
  u.id,
  elim input.full_name [
    | none ↦ users
    | some name ↦
        prisma.update_many User (λ v. v.phone == input.phone)
          (λ v. record v { full_name = some name }) users
  ],
)

-- `upsert` by organisation and user: the membership's id, and the memberships.
abbrev pub upserted_member :
    Prisma
    → MemberInput
    → ℕ
    → ℕ
    → Option OrgMembership
    → List OrgMembership
    → ℕ × List OrgMembership
upserted_member prisma input id user_id none members =
    (id, prisma.create OrgMembership (joined_member input id user_id) members)
upserted_member prisma input id user_id (some m) members = (
  m.id,
  prisma.update_many OrgMembership (is_member input.org_id user_id) (rejoined input) members,
)

abbrev pub scope_row : ℕ → ℕ → OrgMembershipProperty
scope_row membership_id property_id = record {
  membership_id = membership_id;
  property_id = property_id;
}

-- `createMany`, of a row for each property.
abbrev pub limited_to :
    Prisma → ℕ → List ℕ → List OrgMembershipProperty → List OrgMembershipProperty
limited_to prisma membership_id [] rows = rows
limited_to prisma membership_id (k ∷ ids) rows =
    prisma.create OrgMembershipProperty (scope_row membership_id k)
      (limited_to prisma membership_id ids rows)

-- `deleteMany` and then `createMany`.
abbrev pub scoped : Prisma → ℕ → List ℕ → List OrgMembershipProperty → List OrgMembershipProperty
scoped prisma membership_id ids rows =
    limited_to prisma membership_id ids
      (prisma.delete_many OrgMembershipProperty (λ s. s.membership_id == membership_id) rows)

module _ (prisma : Prisma) where
  unfoldable pub scope_ids : ℕ → Db → List ℕ
  scope_ids membership_id db =
      map (λ s. s.property_id)
        (prisma.find_many OrgMembershipProperty (λ s. s.membership_id == membership_id)
          db.membership_properties)

  abbrev pub to_record : Db → OrgMembership → MemberRecord
  to_record db m = record { membership = m; property_ids = scope_ids m.id db }

  unfoldable pub list_members : ℕ → Db → List MemberRecord
  list_members org_id db =
      map (to_record db)
        (prisma.find_many OrgMembership (λ m. m.org_id == org_id) db.org_memberships)

  unfoldable pub find_member : ℕ → ℕ → Db → Option OrgMembership
  find_member org_id membership_id db =
      prisma.find_first OrgMembership (λ m. (m.id == membership_id) && (m.org_id == org_id))
        db.org_memberships

  unfoldable pub count_active_owners : ℕ → Db → ℕ
  count_active_owners org_id db =
      length (prisma.find_many OrgMembership (is_active_owner org_id) db.org_memberships)

  unfoldable pub owned_property_ids : ℕ → List ℕ → Db → List ℕ
  owned_property_ids org_id [] db = []
  owned_property_ids org_id (k ∷ ids) db =
      map (λ p. p.id) (prisma.find_many Property (is_owned org_id (k ∷ ids)) db.properties)

  unfoldable pub add_member : MemberInput → Db → ℕ × Db
  add_member input db =
      let user =
        upserted_user prisma input db.next_id
          (prisma.find_first User (λ u. u.phone == input.phone) db.users) db.users in
      let member =
        upserted_member prisma input (db.next_id + 1) user.0
          (prisma.find_first OrgMembership (is_member input.org_id user.0) db.org_memberships)
          db.org_memberships in
      (
        member.0,
        record db {
          next_id = db.next_id + 2;
          users = user.1;
          org_memberships = member.1;
          membership_properties =
              scoped prisma member.0 input.property_ids db.membership_properties;
        },
      )

  unfoldable pub update_member : ℕ → Option OrgRole → Option Bool → Option (List ℕ) → Db → Result Db
  update_member membership_id role can_create property_ids db = do
    members ←
        prisma.update OrgMembership (has_member_id membership_id) (set_member role can_create)
          db.org_memberships
    ok (record db {
      org_memberships = members;
      membership_properties = elim property_ids [
        | none ↦ db.membership_properties
        | some ids ↦ scoped prisma membership_id ids db.membership_properties
      ];
    })

  -- The person's sessions end in the same transaction.
  unfoldable pub deactivate : Date → ℕ → ℕ → Db → Result Db
  deactivate now membership_id user_id db = do
    members ←
        prisma.update OrgMembership (has_member_id membership_id) (λ m. record m { active = false })
          db.org_memberships
    ok (record db {
      org_memberships = members;
      auth_sessions =
          prisma.update_many AuthSession (λ s. (s.user_id == user_id) && is_none s.revoked_at)
            (λ s. record s { revoked_at = some now }) db.auth_sessions;
    })

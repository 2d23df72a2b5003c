-- ===== src/Staff/Service.antt =====
-- staff.service.ts. The checks of a request's form are made before it; a phone comes as its characters.
use Prim.Native.String.{String}
use rookopg.Prelude.{
  ℕ, Bool, false, not, ◌&&◌, ◌||◌, Option, none, some, List, [], ◌∷◌, ◌==◌, leb, any, select, map,
  if◌then◌else◌, or_else,
}
use rookopg.Calendar.{Date}
use rookopg.Errors.{ok, not_found, conflict, forbidden, invalid_phone}
use rookopg.Phone.{normalise_phone}
use rookopg.Iam.{
  AuthenticatedActor, OrgRole, owner, manager, same_role, assert_org_access, non_empty,
}
use rookopg.Database.Client.{Prisma}
use rookopg.Database.Session.{
  Session, ◌>>=◌, ◌>>◌, pure, lift, reads, transact, require_s, require_some,
}
use rookopg.Staff.Repository.{
  MemberRecord, MemberInput, list_members, find_member, count_active_owners, owned_property_ids,
  add_member, update_member, deactivate,
}

pub record AddMemberDto : Type 0 where
  pub phone : List ℕ
  pub full_name : Option String
  pub role : OrgRole
  pub property_ids : Option (List ℕ)
  pub can_create_properties : Option Bool

pub record UpdateMemberDto : Type 0 where
  pub role : Option OrgRole
  pub property_ids : Option (List ℕ)
  pub can_create_properties : Option Bool

pub record OrgMemberDto : Type 0 where
  pub membership_id : ℕ
  pub user_id : ℕ
  pub role : OrgRole
  pub active : Bool
  pub can_create_properties : Bool
  pub property_ids : List ℕ

-- An owner may create properties whatever the flag says.
unfoldable pub to_dto : MemberRecord → OrgMemberDto
to_dto member = record {
  membership_id = member.membership.id;
  user_id = member.membership.user_id;
  role = member.membership.role;
  active = member.membership.active;
  can_create_properties =
      same_role member.membership.role owner || member.membership.can_create_properties;
  property_ids = member.property_ids;
}

-- `dto.role && dto.role !== member.role`
abbrev pub changes_role : Option OrgRole → OrgRole → Bool
changes_role none role = false
changes_role (some r) role = not (same_role r role)

abbrev pub is_manager : Option OrgRole → Bool
is_manager none = false
is_manager (some r) = same_role r manager

module _ (prisma : Prisma) where
  unfoldable pub list_staff : AuthenticatedActor → ℕ → Session (List OrgMemberDto)
  list_staff actor org_id = do
    lift (assert_org_access actor org_id [])
    members ← reads (list_members prisma org_id)
    pure (map to_dto members)

  -- A scope names only properties of the organisation.
  unfoldable pub resolve_scope : ℕ → List ℕ → Session (List ℕ)
  resolve_scope org_id [] = pure []
  resolve_scope org_id (k ∷ requested) = do
    owned ← reads (owned_property_ids prisma org_id (k ∷ requested))
    require_s (not (non_empty (select (λ id. not (any (λ o. o == id) owned)) (k ∷ requested))))
        (not_found "Property")
    pure owned

  unfoldable pub assert_not_last_owner : ℕ → Session (Unit {0})
  assert_not_last_owner org_id = do
    owners ← reads (count_active_owners prisma org_id)
    require_s (not (leb owners 1))
        (conflict "You cannot do this to the last owner. Add another owner first.")

  abbrev pub member_input : ℕ → ℕ → List ℕ → AddMemberDto → MemberInput
  member_input org_id phone property_ids dto = record {
    org_id = org_id;
    phone = phone;
    full_name = dto.full_name;
    role = dto.role;
    can_create_properties =
        if same_role dto.role owner then false else or_else dto.can_create_properties false;
    property_ids = property_ids;
  }

  -- With the id of the membership.
  unfoldable pub add_staff : AuthenticatedActor → ℕ → AddMemberDto → Session ℕ
  add_staff actor org_id dto = do
    lift (assert_org_access actor org_id (owner ∷ []))
    phone ← require_some (normalise_phone dto.phone) invalid_phone
    property_ids ← resolve_scope org_id (or_else dto.property_ids [])
    λ db.
        (let (id, db') = add_member prisma (member_input org_id phone property_ids dto) db in
          (ok id, db'))

  unfoldable pub resolve_given : ℕ → Option (List ℕ) → Session (Option (List ℕ))
  resolve_given org_id none = pure none
  resolve_given org_id (some requested) = do ids ← resolve_scope org_id requested; pure (some ids)

  unfoldable pub update_staff : AuthenticatedActor → ℕ → ℕ → UpdateMemberDto → Session (Unit {0})
  update_staff actor org_id membership_id dto = do
    lift (assert_org_access actor org_id (owner ∷ []))
    found ← reads (find_member prisma org_id membership_id)
    member ← require_some found (not_found "Member")
    require_s (not ((member.user_id == actor.user_id) && changes_role dto.role member.role))
        forbidden
    if same_role member.role owner && is_manager dto.role
        then assert_not_last_owner org_id
        else pure tt
    property_ids ← resolve_given org_id dto.property_ids
    transact (update_member prisma membership_id dto.role dto.can_create_properties property_ids)

  unfoldable pub remove_staff : Date → AuthenticatedActor → ℕ → ℕ → Session (Unit {0})
  remove_staff now actor org_id membership_id = do
    lift (assert_org_access actor org_id (owner ∷ []))
    found ← reads (find_member prisma org_id membership_id)
    member ← require_some found (not_found "Member")
    require_s (not (member.user_id == actor.user_id)) forbidden
    if same_role member.role owner then assert_not_last_owner org_id else pure tt
    transact (deactivate prisma now membership_id member.user_id)

-- ===== src/Iam.antt =====
-- apps/backend/src/modules/iam/iam.service.ts: who may act on an organisation and a property. The
-- reads of the user and membership tables are not modelled; an actor carries what they returned.
pub mod Access
use rookopg.Prelude.{
  ℕ, Bool, true, false, not, ◌&&◌, ◌||◌, Option, none, some, List, [], ◌∷◌, any, find, ◌==◌,
  if◌then◌else◌,
}
use rookopg.Errors.{Result, ok, throw, forbidden, ◌>>=◌, ◌>>◌}

pub data OrgRole : Type 0 where
  owner manager : OrgRole

pub data PlatformRole : Type 0 where
  support moderator finance super_admin : PlatformRole

pub record ActorMembership : Type 0 where
  pub org_id : ℕ
  pub role : OrgRole
  pub can_create_properties : Bool
  pub property_ids : List ℕ

pub record AuthenticatedActor : Type 0 where
  pub user_id : ℕ
  pub memberships : List ActorMembership
  pub platform_roles : List PlatformRole

abbrev pub same_role : OrgRole → OrgRole → Bool
same_role owner owner = true
same_role manager manager = true
same_role _ _ = false

abbrev pub is_super_admin : PlatformRole → Bool
is_super_admin super_admin = true
is_super_admin _ = false

-- `xs.length > 0`
abbrev pub non_empty {ℓ} : {A : Type ℓ} → List A → Bool
non_empty [] = false
non_empty (x ∷ xs) = true

unfoldable pub find_membership : AuthenticatedActor → ℕ → Option ActorMembership
find_membership actor org_id = find (λ m. m.org_id == org_id) actor.memberships

unfoldable pub is_platform_staff : AuthenticatedActor → Bool
is_platform_staff actor = non_empty actor.platform_roles

unfoldable pub platform_staff_may_act : AuthenticatedActor → Bool → Bool
platform_staff_may_act actor role_restricted =
    if not (is_platform_staff actor)
    then false
    else if not role_restricted
    then true
    else any is_super_admin actor.platform_roles

abbrev pub role_allowed : List OrgRole → OrgRole → Bool
role_allowed allowed role = any (same_role role) allowed

-- `allowed.length > 0 && !allowed.includes(membership.role)`
unfoldable pub check_role : List OrgRole → Option ActorMembership → Result (Unit {0})
check_role allowed none = throw forbidden
check_role allowed (some membership) =
    if non_empty allowed && not (role_allowed allowed membership.role)
    then throw forbidden
    else ok tt

unfoldable pub assert_org_access : AuthenticatedActor → ℕ → List OrgRole → Result (Unit {0})
assert_org_access actor org_id allowed =
    if platform_staff_may_act actor (non_empty allowed)
    then ok tt
    else check_role allowed (find_membership actor org_id)

-- What `assertCanCreateProperty` asks of the membership.
unfoldable pub may_create : Option ActorMembership → Result (Unit {0})
may_create none = throw forbidden
may_create (some membership) =
    if same_role membership.role owner
    then ok tt
    else if not membership.can_create_properties
    then throw forbidden
    else ok tt

unfoldable pub assert_can_create_property : AuthenticatedActor → ℕ → Result (Unit {0})
assert_can_create_property actor org_id =
    if platform_staff_may_act actor true then ok tt else may_create (find_membership actor org_id)

-- What `assertPropertyAccess` asks of the membership once the organisation's check has passed.
unfoldable pub check_scope : ℕ → Option ActorMembership → Result (Unit {0})
check_scope property_id none = throw forbidden
check_scope property_id (some membership) =
    if same_role membership.role owner
    then ok tt
    else if not (non_empty membership.property_ids)
    then ok tt
    else if not (any (λ id. id == property_id) membership.property_ids)
    then throw forbidden
    else ok tt

unfoldable pub assert_property_access :
    AuthenticatedActor → ℕ → ℕ → List OrgRole → Result (Unit {0})
unfolding assert_org_access
assert_property_access actor org_id property_id allowed =
    if platform_staff_may_act actor (non_empty allowed) then ok tt else (do
      assert_org_access actor org_id allowed
      check_scope property_id (find_membership actor org_id))

-- `none` inside the result is "every property of the organisation".
unfoldable pub scope_of : Option ActorMembership → Result (Option (List ℕ))
scope_of none = throw forbidden
scope_of (some membership) =
    if same_role membership.role owner
    then ok none
    else if non_empty membership.property_ids
    then ok (some membership.property_ids)
    else ok none

unfoldable pub visible_property_ids : AuthenticatedActor → ℕ → Result (Option (List ℕ))
visible_property_ids actor org_id =
    if is_platform_staff actor then ok none else scope_of (find_membership actor org_id)

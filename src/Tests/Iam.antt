-- ===== src/Tests/Iam.antt =====
-- The access theorems for a manager of one property.
use rookopg.Prelude.{◌≡◌, ◌↔◌, ◌⊎◌, false, some, [], ◌∷◌}
use rookopg.Errors.{ok}
use rookopg.Iam.{
  AuthenticatedActor, ActorMembership, owner, manager, find_membership, assert_property_access,
}
use rookopg.Iam.Access.{StaffMayAct, MemberMayAct, assert_property_access_iff}

abbrev warden : AuthenticatedActor
warden = record {
  user_id = 6;
  memberships =
      record { org_id = 7; role = manager; can_create_properties = false; property_ids = 8 ∷ [] }
      ∷ [];
  platform_roles = [];
}

assert_property_access_iff_example :
    (assert_property_access warden 7 8 (owner ∷ manager ∷ []) ≡ ok tt) ↔ (
      StaffMayAct warden (owner ∷ manager ∷ [])
      ⊎ ((m : ActorMembership) × (find_membership warden 7 ≡ some m)
          × MemberMayAct m 8 (owner ∷ manager ∷ [])))
assert_property_access_iff_example = assert_property_access_iff warden 7 8 (owner ∷ manager ∷ [])

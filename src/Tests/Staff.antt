-- ===== src/Tests/Staff.antt =====
-- The staff theorems at an organisation of an owner and a manager.
use rookopg.Prelude.{ℕ, ◌≡◌, ◌<◌, refl, true, false, none, some, [], ◌∷◌, All, arith}
use rookopg.Errors.{Result, ok, throw}
use rookopg.Iam.{
  AuthenticatedActor, owner, manager, assert_org_access, check_role, find_membership,
  platform_staff_may_act, is_platform_staff,
}
use rookopg.Phone.{normalise_phone}
use rookopg.Database.{Db, OrgMembership}
use rookopg.Staff.Repository.{scope_ids, owned_property_ids, add_member}
use rookopg.Staff.Service.{
  AddMemberDto, UpdateMemberDto, add_staff, update_staff, remove_staff, resolve_scope,
}
use rookopg.Staff.Members.{owners, DistinctIds}
use rookopg.Staff.Owners.{staff-owners}
use rookopg.Staff.Scope.{Owns, add_staff_lem}
use rookopg.Tests.ListClient.{list_prisma}
use rookopg.Tests.Ledger.{let_db}

abbrev landlady : AuthenticatedActor
landlady = record {
  user_id = 5;
  memberships =
      record { org_id = 7; role = owner; can_create_properties = false; property_ids = [] } ∷ [];
  platform_roles = [];
}

abbrev owning : OrgMembership
owning = record {
  id = 80;
  org_id = 7;
  user_id = 5;
  role = owner;
  active = true;
  can_create_properties = false;
}

abbrev managing : OrgMembership
managing = record owning { id = 81; user_id = 6; role = manager }

abbrev staffed_db : Db
staffed_db = record let_db { org_memberships = owning ∷ managing ∷ [] }

own_ids : DistinctIds staffed_db.org_memberships
own_ids = (((λ e. ground arith), tt), (tt, tt))

abbrev promotion : UpdateMemberDto
promotion = record { role = some owner; property_ids = none; can_create_properties = none }

staff-owners_example :
    (0 < owners 7 (update_staff list_prisma landlady 7 81 promotion staffed_db).1.org_memberships)
    × (0 < owners 7 (remove_staff list_prisma 5 landlady 7 81 staffed_db).1.org_memberships)
staff-owners_example =
    staff-owners list_prisma 5 landlady 7 81 promotion staffed_db own_ids (omega arith)

abbrev joining : AddMemberDto
joining = record {
  phone = 57 ∷ 56 ∷ 55 ∷ 54 ∷ 53 ∷ 52 ∷ 51 ∷ 50 ∷ 49 ∷ 48 ∷ [];
  full_name = some "Ravi";
  role = manager;
  property_ids = some (8 ∷ []);
  can_create_properties = none;
}

abbrev joined_run : Result ℕ × Db
joined_run = add_staff list_prisma landlady 7 joining staffed_db

abbrev id_in : Result ℕ → ℕ
id_in (ok n) = n
id_in (throw e) = 0

was_added :
    add_staff list_prisma landlady 7 joining staffed_db ≡ (ok (id_in joined_run.0), joined_run.1)
unfolding add_staff add_member resolve_scope owned_property_ids assert_org_access check_role
    find_membership platform_staff_may_act is_platform_staff normalise_phone
was_added = refl

add_staff_lem_example :
    (assert_org_access landlady 7 (owner ∷ []) ≡ ok tt)
    × All (Owns 7 staffed_db) (scope_ids list_prisma (id_in joined_run.0) joined_run.1)
add_staff_lem_example = add_staff_lem list_prisma landlady 7 joining staffed_db was_added

-- ===== src/Iam/Access.antt =====
-- Exactly who passes the access checks.
use rookopg.Prelude.{
  ℕ, Bool, true, false, Option, none, some, List, [], any, ◌==◌, ◌≡◌, ◌↔◌, ◌⊎◌, refl, arith, inl,
  inr, Bool-cases, sym, ◌∙◌,
}
use mathlib.Core.Path.{subst}
use mathlib.Core.Option.{some-injective}
use rookopg.Errors.{ok, throw, forbidden, ◌>>◌}
use rookopg.Iam.{
  OrgRole, owner, ActorMembership, AuthenticatedActor, find_membership, is_platform_staff,
  platform_staff_may_act, assert_property_access, visible_property_ids, non_empty, role_allowed,
  is_super_admin, scope_of, check_role, check_scope,
}

-- The policy, said of the actor and not of the checks' order.
-- Staff of the platform pass where no role is asked for; where one is, a super-admin only.
abbrev pub StaffMayAct : AuthenticatedActor → List OrgRole → Type 0
StaffMayAct actor allowed =
    (non_empty actor.platform_roles ≡ true)
    × ((non_empty allowed ≡ false) ⊎ (any is_super_admin actor.platform_roles ≡ true))

-- A member passes with a role that is allowed, on a property within their scope.
abbrev pub MemberMayAct : ActorMembership → ℕ → List OrgRole → Type 0
MemberMayAct m property_id allowed =
    ((non_empty allowed ≡ false) ⊎ (role_allowed allowed m.role ≡ true))
    × ((m.role ≡ owner)
        ⊎ ((non_empty m.property_ids ≡ false)
            ⊎ (any (λ id. id == property_id) m.property_ids ≡ true)))

staff_iff :
    (actor : AuthenticatedActor) (allowed : List OrgRole)
    → (platform_staff_may_act actor (non_empty allowed) ≡ true) ↔ StaffMayAct actor allowed
unfolding platform_staff_may_act is_platform_staff
staff_iff actor allowed = (λ h. ground arith, λ h. ground arith)

member_back :
    (m : ActorMembership) (property_id : ℕ) (allowed : List OrgRole)
    → MemberMayAct m property_id allowed
    → (check_role allowed (some m) >> check_scope property_id (some m)) ≡ ok tt
unfolding check_role check_scope
member_back m property_id allowed h = ground arith

member_iff :
    (o : Option ActorMembership) (property_id : ℕ) (allowed : List OrgRole)
    → ((check_role allowed o >> check_scope property_id o) ≡ ok tt)
      ↔ ((m : ActorMembership) × (o ≡ some m) × MemberMayAct m property_id allowed)
unfolding check_role check_scope
member_iff none property_id allowed = (λ h. cc, λ h. cc (h.1))
member_iff (some m) property_id allowed = (
  λ h. (m, refl, ground arith),
  λ h.
      member_back m property_id allowed
        (subst (λ x. MemberMayAct x property_id allowed) (sym (some-injective m h.0 h.1)) h.2),
)

module _ (actor : AuthenticatedActor) (org_id property_id : ℕ) (allowed : List OrgRole) where
  access_of_staff :
      platform_staff_may_act actor (non_empty allowed) ≡ true
      → assert_property_access actor org_id property_id allowed ≡ ok tt
  unfolding assert_property_access
  access_of_staff s = rw s refl

  access_of_member :
      platform_staff_may_act actor (non_empty allowed) ≡ false
      → assert_property_access actor org_id property_id allowed ≡ (
          check_role allowed (find_membership actor org_id)
          >> check_scope property_id (find_membership actor org_id))
  unfolding assert_property_access
  access_of_member n = rw n refl

false_staff {ℓ} : {A : Type ℓ} (b : Bool) → b ≡ false → b ≡ true → A
false_staff true n s = cc
false_staff false n s = cc

-- Access to a property is granted exactly to staff who may act, and to members of its organisation
-- who may.
pub assert_property_access_iff :
    (actor : AuthenticatedActor) (org_id property_id : ℕ) (allowed : List OrgRole)
    → (assert_property_access actor org_id property_id allowed ≡ ok tt) ↔ (
        StaffMayAct actor allowed
        ⊎ ((m : ActorMembership) × (find_membership actor org_id ≡ some m)
            × MemberMayAct m property_id allowed))
assert_property_access_iff actor org_id property_id allowed =
    let o = find_membership actor org_id in
    let member = member_iff o property_id allowed in
    let staff = staff_iff actor allowed in
    elim (Bool-cases (platform_staff_may_act actor (non_empty allowed))) [
      | inl s ↦ (λ _. inl (staff.0 s), λ _. access_of_staff actor org_id property_id allowed s)
      | inr n ↦
          let e = access_of_member actor org_id property_id allowed n in
          (
            λ h. inr (member.0 (sym e ∙ h)),
            elim [ inl s ↦ false_staff _ n (staff.1 s) | inr m ↦ e ∙ member.1 m ],
          )
    ]

-- Someone who belongs to another organisation only, and not to the platform's staff, is refused,
-- whatever roles are allowed.
stranger_refused :
    (actor : AuthenticatedActor) (org_id property_id : ℕ) (allowed : List OrgRole)
    → actor.platform_roles ≡ []
    → find_membership actor org_id ≡ none
    → assert_property_access actor org_id property_id allowed ≡ throw forbidden
unfolding assert_property_access platform_staff_may_act is_platform_staff check_role
stranger_refused actor org_id property_id allowed staff member = rw (member, staff) refl

-- Whether a property is among those visible; with no list, all are.
abbrev pub IsVisible : Option (List ℕ) → ℕ → Type 0
IsVisible none property_id = Unit
IsVisible (some ids) property_id = any (λ id. id == property_id) ids ≡ true

scope_agrees :
    (o : Option ActorMembership) (property_id : ℕ) {v : Option (List ℕ)}
    → scope_of o ≡ ok v
    → ((check_role [] o >> check_scope property_id o) ≡ ok tt) ↔ IsVisible v property_id
unfolding scope_of check_role check_scope
scope_agrees none property_id h = cc
scope_agrees (some m) property_id h = (λ k. ground arith, λ k. ground arith)

visible_to_staff :
    (actor : AuthenticatedActor) (org_id : ℕ) {v : Option (List ℕ)}
    → is_platform_staff actor ≡ true
    → visible_property_ids actor org_id ≡ ok v
    → none ≡ v
unfolding visible_property_ids
visible_to_staff actor org_id s h = ground arith

visible_to_member :
    (actor : AuthenticatedActor) (org_id : ℕ) {v : Option (List ℕ)}
    → is_platform_staff actor ≡ false
    → visible_property_ids actor org_id ≡ ok v
    → scope_of (find_membership actor org_id) ≡ ok v
unfolding visible_property_ids
visible_to_member actor org_id n h = rw n at h

unrestricted :
    (actor : AuthenticatedActor) {b : Bool}
    → is_platform_staff actor ≡ b
    → platform_staff_may_act actor false ≡ b
unfolding platform_staff_may_act is_platform_staff
unrestricted actor h = ground arith

-- Where `visiblePropertyIds` does not throw, a property passes the access check, with no role asked
-- for, exactly if it is visible.
visible_property_ids_iff :
    (actor : AuthenticatedActor) (org_id property_id : ℕ) {v : Option (List ℕ)}
    → visible_property_ids actor org_id ≡ ok v
    → (assert_property_access actor org_id property_id [] ≡ ok tt) ↔ IsVisible v property_id
visible_property_ids_iff actor org_id property_id {v} h =
    elim (Bool-cases (is_platform_staff actor)) [
      | inl s ↦
          subst
            (λ w.
              (assert_property_access actor org_id property_id [] ≡ ok tt)
              ↔ IsVisible w property_id)
            (visible_to_staff actor org_id s h)
            (λ _. tt, λ _. access_of_staff actor org_id property_id [] (unrestricted actor s))
      | inr n ↦
          let e = access_of_member actor org_id property_id [] (unrestricted actor n) in
          let agree =
            scope_agrees (find_membership actor org_id) property_id
              (visible_to_member actor org_id n h) in
          (λ k. agree.0 (sym e ∙ k), λ k. e ∙ agree.1 k)
    ]

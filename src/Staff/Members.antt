-- ===== src/Staff/Members.antt =====
-- How many active owners a change of one membership leaves.
use rookopg.Prelude.{
  ℕ, ◌+◌, ◌≡◌, ◌≢◌, refl, sym, ◌≤◌, Bool, true, false, Option, none, some, List, [], ◌∷◌, length,
  select, arith, Bool-cases, inl, inr, All, All-imp, ==_iff,
}
use rookopg.Iam.{OrgRole, owner, manager}
use rookopg.Database.{OrgMembership}
use rookopg.Database.Client.{changed}
use rookopg.Staff.Repository.{is_active_owner, has_member_id, set_member}
use rookopg.Staff.Service.{is_manager}

abbrev pub owners : ℕ → List OrgMembership → ℕ
owners org_id members = length (select (is_active_owner org_id) members)

-- Ids are not repeated.
abbrev pub DistinctIds : List OrgMembership → Type 0
DistinctIds [] = Unit
DistinctIds (m ∷ members) = All (λ m'. m'.id ≢ m.id) members × DistinctIds members

module _ (org_id k : ℕ) (f : OrgMembership → OrgMembership) where
  pub others_same :
      (members : List OrgMembership)
      → All (λ m. m.id ≢ k) members
      → owners org_id (changed (has_member_id k) f members) ≡ owners org_id members
  others_same [] h = refl
  others_same (m ∷ members) h =
      let other : has_member_id k m ≡ false = ground (arith, h.0, ==_iff m.id k) in
      ground (arith, others_same members h.1)

  -- Changing the row with an id takes away one owner at most.
  pub changed-owners :
      (members : List OrgMembership)
      → DistinctIds members
      → owners org_id members ≤ owners org_id (changed (has_member_id k) f members) + 1
  changed-owners [] h = omega arith
  changed-owners (m ∷ members) h = elim (Bool-cases (has_member_id k m)) [
    | inr other ↦ ground (arith, changed-owners members h.1)
    | inl here ↦
        let same : m.id ≡ k = (==_iff m.id k).0 here in
        let rest : All (λ (m' : OrgMembership). m'.id ≢ k) members = (rw same at h.0) in
        ground (arith, others_same members rest)
  ]

  -- And none where it was no owner's, or stays one's.
  pub changed-owners_same :
      (members : List OrgMembership)
      → All
          (λ m. (m.id ≡ k) → is_active_owner org_id m ≡ true → is_active_owner org_id (f m) ≡ true)
          members
      → owners org_id members ≤ owners org_id (changed (has_member_id k) f members)
  changed-owners_same [] h = omega arith
  changed-owners_same (m ∷ members) h = elim (Bool-cases (has_member_id k m)) [
    | inr other ↦ ground (arith, changed-owners_same members h.1)
    | inl here ↦
        let same : m.id ≡ k = (==_iff m.id k).0 here in
        ground (arith, changed-owners_same members h.1, h.0 same)
  ]

-- Rows with one id have one role.
pub same_roles :
    (members : List OrgMembership)
    → DistinctIds members
    → All (λ m. All (λ m'. m'.id ≡ m.id → m'.role ≡ m.role) members) members
same_roles [] h = tt
same_roles (m ∷ members) h = (
  (
    (λ e. refl),
    All-imp _ (λ m'. m'.id ≡ m.id → m'.role ≡ m.role) members (λ m' k e. absurd (k e)) h.0,
  ),
  both members h.0 (same_roles members h.1),
)
  where
    both :
        (rest : List OrgMembership)
        → All (λ m'. m'.id ≢ m.id) rest
        → All (λ m'. All (λ m''. m''.id ≡ m'.id → m''.role ≡ m'.role) members) rest
        → All (λ m'. All (λ m''. m''.id ≡ m'.id → m''.role ≡ m'.role) (m ∷ members)) rest
    both [] d s = tt
    both (m' ∷ rest) d s = (((λ e. absurd (d.0 (sym e))), s.0), both rest d.1 s.1)

-- Setting no role, or the owner's, leaves an owner.
pub owner_stays :
    (org_id k : ℕ) (role : Option OrgRole) (can_create : Option Bool)
    → is_manager role ≡ false
    → (m : OrgMembership) → m.id ≡ k
    → is_active_owner org_id m ≡ true
    → is_active_owner org_id (set_member role can_create m) ≡ true
owner_stays org_id k none none h m e owns = owns
owner_stays org_id k none (some c) h m e owns = owns
owner_stays org_id k (some manager) can_create h m e owns = ground arith
owner_stays org_id k (some owner) none h m e owns = ground arith
owner_stays org_id k (some owner) (some c) h m e owns = ground arith

-- ===== src/Inventory/Plans.antt =====
-- What a bulk request that passes the checks asks the database for.
use rookopg.Prelude.{
  ℕ, zero, suc, ◌+◌, ◌==◌, ltb→lt, leb→le, All-imp, ◌≡◌, refl, sym, ap, ◌≤◌, ◌<◌, ◌⊎◌, inl, inr,
  Bool, true, false, Option, none, some, List, [], ◌∷◌, ◌++◌, map, length, any, sum_of, or_else,
  All, All-append, length-append, arith, Bool-cases, ==_refl, ==_iff,
}
use rookopg.Errors.{DomainError, require, ok, >>=-ok}
use rookopg.BedLabels.{default_capacity_for, bed_labels, labels_from, room_code}
use rookopg.Inventory.{
  BulkFloor, RoomAttributes, RoomPlan, agreed_capacity, plan_room, plan_floor, plan_floors,
  plan_bulk, duplicated, same_text, is_empty, plan_code, room_plan, max_rooms_per_bulk,
}

-- A plan has a bed for each place, and as many places as its kind of room holds.
abbrev pub IsPlanned : RoomPlan → Type 0
IsPlanned plan =
    (length plan.bed_codes ≡ plan.sharing_capacity)
    × ((default_capacity_for plan.sharing_type ≡ none)
        ⊎ (default_capacity_for plan.sharing_type ≡ some plan.sharing_capacity))

-- No code stands twice.
abbrev pub Distinct : List (List ℕ) → Type 0
Distinct [] = Unit
Distinct (code ∷ codes) = All (λ c. ¬ (code ≡ c)) codes × Distinct codes

length-labels_from : (index count : ℕ) → length (labels_from index count) ≡ count
unfolding labels_from
length-labels_from index zero = refl
length-labels_from index (suc count) = ap suc (length-labels_from (index + 1) count)

length-bed_labels : (count : ℕ) → length (bed_labels count) ≡ count
unfolding bed_labels
length-bed_labels count = length-labels_from 0 count

agreed :
    (implied asked : Option ℕ) (n : ℕ)
    → agreed_capacity implied asked ≡ ok n
    → (implied ≡ none) ⊎ (implied ≡ some n)
unfolding agreed_capacity
agreed none none n h = ground arith
agreed none (some asked) n h = inl refl
agreed (some implied) none n h = ground arith
agreed (some implied) (some asked) n h = elim (Bool-cases (asked == implied)) [
  | inl same ↦ (let equal : asked ≡ implied = (==_iff asked implied).0 same in ground arith)
  | inr other ↦ ground arith
]

plan_room-IsPlanned :
    (input : RoomAttributes) (code : List ℕ) (floor : Option ℕ) (plan : RoomPlan)
    → plan_room input code floor ≡ ok plan
    → IsPlanned plan
unfolding plan_room
plan_room-IsPlanned input code floor plan h =
    let (n, agrees, made) =
      >>=-ok {m = agreed_capacity (default_capacity_for input.sharing_type) input.sharing_capacity}
        h in
    let same : room_plan input code floor n ≡ plan = ground arith in
    rw (sym same) (length-bed_labels n, agreed _ input.sharing_capacity n agrees)

plan_floor-IsPlanned :
    (f : BulkFloor) (number count : ℕ) (plans : List RoomPlan)
    → plan_floor f number count ≡ ok plans
    → All IsPlanned plans × (length plans ≡ count)
unfolding plan_floor
plan_floor-IsPlanned f number zero plans h =
    let same : [] ≡ plans = ground arith in rw (sym same) (tt, refl)
plan_floor-IsPlanned f number (suc count) plans h =
    let (plan, first, more) =
      >>=-ok {m = plan_room f.attributes (room_code f.floor number) (some f.floor)} h in
    let (rest, others, made) = >>=-ok {m = plan_floor f (number + 1) count} more in
    let (each, size) = plan_floor-IsPlanned f (number + 1) count rest others in
    let same : plan ∷ rest ≡ plans = ground arith in
    rw (sym same) (
      (plan_room-IsPlanned f.attributes (room_code f.floor number) (some f.floor) plan first, each),
      ap suc size,
    )

plan_floors-IsPlanned :
    (floors : List BulkFloor) (plans : List RoomPlan)
    → plan_floors floors ≡ ok plans
    → All IsPlanned plans × (length plans ≡ sum_of (λ f. f.room_count) floors)
unfolding plan_floors
plan_floors-IsPlanned [] plans h = let same : [] ≡ plans = ground arith in rw (sym same) (tt, refl)
plan_floors-IsPlanned (f ∷ floors) plans h =
    let (first, here, more) = >>=-ok {m = plan_floor f (or_else f.start_number 1) f.room_count} h in
    let (rest, others, made) = >>=-ok {m = plan_floors floors} more in
    let (each, size) = plan_floor-IsPlanned f (or_else f.start_number 1) f.room_count first here in
    let (each', size') = plan_floors-IsPlanned floors rest others in
    let same : first ++ rest ≡ plans = ground arith in
    rw (sym same) (
      All-append IsPlanned first rest each each',
      omega (arith, length-append first rest, size, size'),
    )

same_text_refl : (cs : List ℕ) → same_text cs cs ≡ true
same_text_refl [] = refl
same_text_refl (c ∷ cs) = rw (==_refl c, same_text_refl cs) refl

not_earlier :
    (code : List ℕ) (earlier : List (List ℕ))
    → any (same_text code) earlier ≡ false
    → All (λ c. ¬ (c ≡ code)) earlier
not_earlier code [] h = tt
not_earlier code (c ∷ earlier) h = elim (Bool-cases (same_text code c)) [
  | inl same ↦ ground arith
  | inr other ↦ (
    λ equal. let alike : same_text code c ≡ true = rw equal (same_text_refl code) in ground arith,
    not_earlier code earlier (ground arith),
  )
]

duplicated-Distinct :
    (earlier codes : List (List ℕ))
    → is_empty (duplicated earlier codes) ≡ true
    → All (λ code. All (λ c. ¬ (c ≡ code)) earlier) codes × Distinct codes
unfolding duplicated
duplicated-Distinct earlier [] h = (tt, tt)
duplicated-Distinct earlier (code ∷ codes) h = elim (Bool-cases (any (same_text code) earlier)) [
  | inl there ↦ ground arith
  | inr new ↦
      (let (before, among) = duplicated-Distinct (code ∷ earlier) codes (ground arith) in
        (
          (
            not_earlier code earlier new,
            All-imp _ (λ c. All (λ e. ¬ (e ≡ c)) earlier) codes (λ c k. k.1) before,
          ),
          (All-imp _ (λ c. ¬ (code ≡ c)) codes (λ c k. k.0) before, among),
        ))
]

-- A test that a sequence went through held.
require-ok : (b : Bool) (e : DomainError) (u : Unit {0}) → require b e ≡ ok u → b ≡ true
require-ok true e u h = refl
require-ok false e u h = ground arith

-- A bulk request that passes the checks plans as many rooms as its floors ask for, at least one and
-- at most 200, with no room number twice; each plan has a bed for each place, and as many places as
-- its sharing type implies, where it implies any.
pub plan_bulk_lem :
    (floors : List BulkFloor) (plans : List RoomPlan)
    → plan_bulk floors ≡ ok plans
    → (length plans ≡ sum_of (λ f. f.room_count) floors)
      × (0 < length plans)
      × (length plans ≤ max_rooms_per_bulk)
      × Distinct (map plan_code plans)
      × All IsPlanned plans
unfolding plan_bulk
plan_bulk_lem floors plans h =
    let (made, gives, checked) = >>=-ok {m = plan_floors floors} h in
    let (each, size) = plan_floors-IsPlanned floors made gives in
    let (_, tests_pass, same) = >>=-ok checked in
    let (_, sizes_pass, new) = >>=-ok tests_pass in
    let (_, some_room, few) = >>=-ok sizes_pass in
    let equal : made ≡ plans = ground arith in
    rw (sym equal) (
      size,
      ltb→lt 0 (length made) (require-ok _ _ _ some_room),
      leb→le (length made) max_rooms_per_bulk (require-ok _ _ _ few),
      (duplicated-Distinct [] (map plan_code made) (require-ok _ _ _ new)).1,
      each,
    )

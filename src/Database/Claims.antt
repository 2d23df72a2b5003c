-- ===== src/Database/Claims.antt =====
-- No two active claims on a bed overlap: what a change of rows must keep for that.
use rookopg.Prelude.{
  ◌≡◌, refl, Bool, true, false, List, [], ◌∷◌, any, All, map, if◌then◌else◌, arith, ◌||◌,
}
use rookopg.Database.{BedAllocation, is_active, overlaps}
use rookopg.Database.Client.{changed}

abbrev pub Disjoint : List BedAllocation → Type 0
Disjoint [] = Unit
Disjoint (a ∷ rest) = All (λ b. overlaps a b ≡ false) rest × Disjoint rest

-- `a'` claims no more than `a`: the same bed and dates, and only if `a` was active.
pub record Narrows (a' a : BedAllocation) : Type 0 where
  pub bed : a'.bed_id ≡ a.bed_id
  pub start : a'.start_date ≡ a.start_date
  pub until : a'.end_date ≡ a.end_date
  pub live : is_active a'.status ≡ true → is_active a.status ≡ true

pub Narrows-refl : (a : BedAllocation) → Narrows a a
Narrows-refl a = record { bed = refl; start = refl; until = refl; live = λ h. h }

overlaps-Narrows :
    (a' a b' b : BedAllocation)
    → Narrows a' a
    → Narrows b' b
    → overlaps a b ≡ false
    → overlaps a' b' ≡ false
unfolding overlaps
overlaps-Narrows a' a b' b h k apart = ground arith

Disjoint_head :
    (f : BedAllocation → BedAllocation) (narrow : (a : BedAllocation) → Narrows (f a) a)
    (a : BedAllocation) (rows : List BedAllocation)
    → All (λ b. overlaps a b ≡ false) rows
    → All (λ b. overlaps (f a) b ≡ false) (map f rows)
Disjoint_head f narrow a [] h = tt
Disjoint_head f narrow a (b ∷ rows) h =
    (overlaps-Narrows (f a) a (f b) b (narrow a) (narrow b) h.0, Disjoint_head f narrow a rows h.1)

Disjoint-map :
    (f : BedAllocation → BedAllocation) (rows : List BedAllocation)
    → ((a : BedAllocation) → Narrows (f a) a)
    → Disjoint rows
    → Disjoint (map f rows)
Disjoint-map f [] narrow h = tt
Disjoint-map f (a ∷ rows) narrow h =
    (Disjoint_head f narrow a rows h.0, Disjoint-map f rows narrow h.1)

narrow_if : (b : Bool) (a' a : BedAllocation) → Narrows a' a → Narrows (if b then a' else a) a
narrow_if true a' a h = h
narrow_if false a' a h = Narrows-refl a

-- Changing rows so that none claims more keeps claims disjoint.
pub Disjoint-changed :
    (p : BedAllocation → Bool) (f : BedAllocation → BedAllocation) (rows : List BedAllocation)
    → ((a : BedAllocation) → Narrows (f a) a)
    → Disjoint rows
    → Disjoint (changed p f rows)
Disjoint-changed p f rows narrow =
    Disjoint-map (λ r. if p r then f r else r) rows λ a. narrow_if (p a) (f a) a (narrow a)

or_false : (x y : Bool) → (x || y) ≡ false → (x ≡ false) × (y ≡ false)
or_false x y h = ground arith

overlaps_none :
    (a : BedAllocation) (rows : List BedAllocation)
    → any (overlaps a) rows ≡ false
    → All (λ b. overlaps a b ≡ false) rows
overlaps_none a [] h = tt
overlaps_none a (b ∷ rows) h =
    let split = or_false (overlaps a b) (any (overlaps a) rows) h in
    (split.0, overlaps_none a rows split.1)

-- A new claim that overlaps none keeps claims disjoint.
pub Disjoint-new :
    (a : BedAllocation) (rows : List BedAllocation)
    → any (overlaps a) rows ≡ false
    → Disjoint rows
    → Disjoint (a ∷ rows)
Disjoint-new a rows h k = (overlaps_none a rows h, k)

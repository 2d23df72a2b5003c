-- ===== src/BedLabels/Letters.antt =====
-- Bed labels are letters, and each one says its position: they are never repeated.
use rookopg.Prelude.{
  ℕ, zero, suc, ◌+◌, ◌-◌, ◌*◌, ◌/◌, ◌%◌, ◌≤◌, ◌<◌, ◌≡◌, refl, ap, sym, ◌∙◌, List, [], ◌∷◌, inl, inr,
  arith, leb, Bool-cases, leb→le, leb→lt, All, length,
}
use native.Mathlib.Nat.{suc-add}
use rookopg.BedLabels.{label_from, bed_label, labels_from, bed_labels}

-- The position that a label stands for: A to Z are 0 to 25, and a further letter multiplies what
-- stands before it by 26, counting from 1.
unfoldable pub position_from : ℕ → List ℕ → ℕ
position_from n [] = n
position_from n (c ∷ cs) = position_from ((n + 1) * 26 + (c - 65)) cs

-- The first letter has nothing before it.
unfoldable pub position : List ℕ → ℕ
unfolding position_from
position [] = 0
position (c ∷ cs) = position_from (c - 65) cs

position-label_from :
    (fuel n : ℕ) (label : List ℕ)
    → n < fuel
    → position (label_from fuel n label) ≡ position_from n label
unfolding label_from position
position-label_from zero n label h = elim h [ ]
position-label_from (suc fuel) n label h = elim (Bool-cases (leb 26 n)) [
  | inl more ↦
      let e : (n / 26 - 1 + 1) * 26 + (65 + n % 26 - 65) ≡ n = omega (arith, leb→le 26 n more) in
      rw (more, label_from)
        (position-label_from fuel (n / 26 - 1) ((65 + n % 26) ∷ label)
            (omega (arith, leb→le 26 n more))
          ∙ ap (λ m. position_from m label) e)
  | inr last ↦
      let e : 65 + n % 26 - 65 ≡ n = omega (arith, leb→lt 26 n last) in
      rw (last, label_from) (ap (λ m. position_from m label) e)
]

-- A label read back gives the position that it was made for.
pub position-bed_label : (index : ℕ) → position (bed_label index) ≡ index
unfolding bed_label position_from
position-bed_label index = position-label_from (suc index) index [] (omega arith)

-- Two beds of a room never share a label.
pub bed_label-injective : (i j : ℕ) → bed_label i ≡ bed_label j → i ≡ j
bed_label-injective i j e = sym (position-bed_label i) ∙ ap position e ∙ position-bed_label j

abbrev IsLetter : ℕ → Type 0
IsLetter c = (65 ≤ c) × (c ≤ 90)

label_from-IsLetter :
    (fuel n : ℕ) (label : List ℕ) → All IsLetter label → All IsLetter (label_from fuel n label)
unfolding label_from
label_from-IsLetter zero n label h = h
label_from-IsLetter (suc fuel) n label h = elim (Bool-cases (leb 26 n)) [
  | inl more ↦
      rw (more, label_from)
        (label_from-IsLetter fuel (n / 26 - 1) ((65 + n % 26) ∷ label) (omega arith, h))
  | inr last ↦ rw (last, label_from) (omega arith, h)
]

-- With more rounds than the number that it starts from, the loop of bedLabel has ended by its own
-- test: further rounds change nothing.
label_from-enough :
    (fuel more n : ℕ) (label : List ℕ)
    → n < fuel
    → label_from (fuel + more) n label ≡ label_from fuel n label
unfolding label_from
label_from-enough zero more n label h = elim h [ ]
label_from-enough (suc fuel) more n label h = rw (suc-add fuel more) (elim (Bool-cases (leb 26 n)) [
  | inl go ↦
      rw (go, label_from)
        (label_from-enough fuel more (n / 26 - 1) ((65 + n % 26) ∷ label)
          (omega (arith, leb→le 26 n go)))
  | inr last ↦ rw (last, label_from) refl
])

-- The labels of a room: as many as asked for, of capital letters only, the label at each place
-- being the one for that place.
abbrev pub Labels : ℕ → List (List ℕ) → Type 0
Labels index [] = Unit
Labels index (label ∷ rest) =
    All IsLetter label × (position label ≡ index) × Labels (index + 1) rest

labels_from-Labels :
    (index count : ℕ)
    → Labels index (labels_from index count) × (length (labels_from index count) ≡ count)
unfolding labels_from
labels_from-Labels index zero = (tt, refl)
labels_from-Labels index (suc count) =
    let (l, n) = labels_from-Labels (index + 1) count in
    (
      (
        unfold bed_label in label_from-IsLetter (suc index) index [] tt,
        position-bed_label index,
        l,
      ),
      ap suc n,
    )

-- A room of `count` beds has that many labels, each of letters only, for the positions from 0 in
-- order.
bed_labels-Labels : (count : ℕ) → Labels 0 (bed_labels count) × (length (bed_labels count) ≡ count)
unfolding bed_labels
bed_labels-Labels count = labels_from-Labels 0 count

-- ===== src/BedLabels.antt =====
-- apps/backend/src/modules/inventory/bed-labels.ts: bed letters, room numbers and room sizes.
-- Text is the list of its character codes.
pub mod Letters
pub mod Rooms
use rookopg.Prelude.{
  ℕ, zero, suc, ◌+◌, ◌-◌, ◌*◌, ◌/◌, ◌%◌, Option, none, some, List, [], ◌∷◌, ◌++◌, Bool, true, false,
  leb, ltb, ◌==◌, if◌then◌else◌,
}

-- The `do … while (n >= 0)` loop, where `Math.floor(n / 26) - 1` is negative just when n < 26. A
-- round makes `n` smaller, so `suc index` rounds suffice.
unfoldable pub label_from : ℕ → ℕ → List ℕ → List ℕ
label_from zero n label = label
label_from (suc fuel) n label =
    let next = (65 + n % 26) ∷ label in
    elim (leb 26 n) [ true ↦ label_from fuel (n / 26 - 1) next | false ↦ next ]

unfoldable pub bed_label : ℕ → List ℕ
unfolding label_from
bed_label index = label_from (suc index) index []

-- `Array.from({ length: count }, (_, index) => bedLabel(index))`
unfoldable pub labels_from : ℕ → ℕ → List (List ℕ)
unfolding bed_label
labels_from index zero = []
labels_from index (suc count) = bed_label index ∷ labels_from (index + 1) count

unfoldable pub bed_labels : ℕ → List (List ℕ)
unfolding labels_from
bed_labels count = labels_from 0 count

pub data SharingType : Type 0 where
  single double triple quad dormitory : SharingType

unfoldable pub default_capacity_for : SharingType → Option ℕ
default_capacity_for single = some 1
default_capacity_for double = some 2
default_capacity_for triple = some 3
default_capacity_for quad = some 4
default_capacity_for dormitory = none

-- `n.toString()`: decimal digits, the last one first found; `suc n` rounds are enough.
unfoldable pub digits_from : ℕ → ℕ → List ℕ → List ℕ
digits_from zero n text = text
digits_from (suc fuel) n text =
    let next = (48 + n % 10) ∷ text in
    elim (leb 10 n) [ true ↦ digits_from fuel (n / 10) next | false ↦ next ]

unfoldable pub to_string : ℕ → List ℕ
unfolding digits_from
to_string n = digits_from (suc n) n []

-- `index.toString().padStart(2, '0')`: a number below 10 has one digit.
unfoldable pub pad_two : ℕ → List ℕ
unfolding to_string
pad_two index = if ltb index 10 then b'0' ∷ to_string index else to_string index

unfoldable pub room_code : ℕ → ℕ → List ℕ
room_code floor index =
    let number = pad_two index in if floor == 0 then b'G' ∷ number else to_string floor ++ number

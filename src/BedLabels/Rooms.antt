-- ===== src/BedLabels/Rooms.antt =====
-- Room numbers: on every floor, the rooms 0 to 99 have numbers of their own.
use rookopg.Prelude.{
  ℕ, zero, suc, ◌+◌, ◌-◌, ◌*◌, ◌/◌, ◌%◌, ◌≤◌, ◌<◌, ◌≡◌, refl, ap, sym, ◌∙◌, List, [], ◌∷◌, ◌++◌,
  true, false, inl, inr, arith, leb, ltb, ◌==◌, Bool-cases, leb→le, leb→lt, ltb→lt, ltb→le, All,
  All-append,
}
use mathlib.Core.Path.{subst}
use rookopg.BedLabels.{digits_from, to_string, pad_two, room_code}

-- The number that digits stand for, behind those of `n`.
value_from : ℕ → List ℕ → ℕ
value_from n [] = n
value_from n (c ∷ cs) = value_from (n * 10 + (c - 48)) cs

value_from-append :
    (n : ℕ) (xs ys : List ℕ) → value_from n (xs ++ ys) ≡ value_from (value_from n xs) ys
unfolding value_from
value_from-append n [] ys = refl
value_from-append n (c ∷ cs) ys = value_from-append (n * 10 + (c - 48)) cs ys

value-digits_from :
    (fuel n : ℕ) (text : List ℕ)
    → n < fuel
    → value_from 0 (digits_from fuel n text) ≡ value_from n text
unfolding digits_from value_from
value-digits_from zero n text h = elim h [ ]
value-digits_from (suc fuel) n text h = elim (Bool-cases (leb 10 n)) [
  | inl more ↦
      let e : n / 10 * 10 + (48 + n % 10 - 48) ≡ n = omega arith in
      rw (more, digits_from)
        (value-digits_from fuel (n / 10) ((48 + n % 10) ∷ text) (omega (arith, leb→le 10 n more))
          ∙ ap (λ m. value_from m text) e)
  | inr last ↦
      let e : 0 * 10 + (48 + n % 10 - 48) ≡ n = omega (arith, leb→lt 10 n last) in
      rw (last, digits_from) (ap (λ m. value_from m text) e)
]

digits_from-digits :
    (fuel n : ℕ) (text : List ℕ)
    → All (λ c. c < 58) text
    → All (λ c. c < 58) (digits_from fuel n text)
unfolding digits_from
digits_from-digits zero n text h = h
digits_from-digits (suc fuel) n text h = elim (Bool-cases (leb 10 n)) [
  | inl more ↦
      rw (more, digits_from)
        (digits_from-digits fuel (n / 10) ((48 + n % 10) ∷ text) (omega arith, h))
  | inr last ↦ rw (last, digits_from) (omega arith, h)
]

digits_from_one :
    (fuel n : ℕ) (text : List ℕ) → n < 10 → digits_from (suc fuel) n text ≡ (48 + n) ∷ text
unfolding digits_from
digits_from_one fuel n text h = ground arith

digits_from_two :
    (n : ℕ) → 10 ≤ n → n < 100 → digits_from (suc n) n [] ≡ (48 + n / 10) ∷ (48 + n % 10) ∷ []
unfolding digits_from
digits_from_two zero h k = absurd (omega arith)
digits_from_two (suc n) h k =
    let test : leb 10 (suc n) ≡ true = ground arith in
    rw (test, digits_from) (digits_from_one n (suc n / 10) ((48 + suc n % 10) ∷ []) (omega arith))

two_chars :
    (i : ℕ) → i < 10 → ◌≡◌ {A = List ℕ} (48 ∷ (48 + i) ∷ []) ((48 + i / 10) ∷ (48 + i % 10) ∷ [])
two_chars i h =
    let a : 48 ≡ 48 + i / 10 = omega arith in
    let b : 48 + i ≡ 48 + i % 10 = omega arith in λ j. a j ∷ b j ∷ []

pad_two-digits : (i : ℕ) → i < 100 → pad_two i ≡ (48 + i / 10) ∷ (48 + i % 10) ∷ []
unfolding pad_two
pad_two-digits i h = elim (Bool-cases (ltb i 10)) [
  | inl small ↦
      rw small (rw (digits_from_one i i [] (ltb→lt i 10 small)) (two_chars i (ltb→lt i 10 small)))
  | inr large ↦ rw large (digits_from_two i (ltb→le i 10 large) h)
]

room_code-suc : (f i : ℕ) → room_code (suc f) i ≡ to_string (suc f) ++ pad_two i
unfolding room_code
room_code-suc f i = let test : (suc f == 0) ≡ false = ground arith in rw test refl

value-to_string : (n : ℕ) → value_from 0 (to_string n) ≡ n
unfolding to_string value_from
value-to_string n = value-digits_from (suc n) n [] (omega arith)

value_of_two : (f i : ℕ) → i < 100 → value_from f ((48 + i / 10) ∷ (48 + i % 10) ∷ []) ≡ f * 100 + i
unfolding value_from
value_of_two f i h = omega arith

-- The number that the code of an upper floor shows: the floor, then two digits for the room.
value-room_code :
    (floor index : ℕ)
    → 0 < floor
    → index < 100
    → value_from 0 (room_code floor index) ≡ floor * 100 + index
value-room_code zero i pos h = elim pos [ ]
value-room_code (suc f) i pos h = rw (room_code-suc f i) (
    rw (value_from-append 0 (to_string (suc f)) (pad_two i))
      (rw (value-to_string (suc f), pad_two-digits i h) (value_of_two (suc f) i h)))

room_code-digits :
    (floor index : ℕ) → 0 < floor → index < 100 → All (λ c. c < 58) (room_code floor index)
unfolding to_string
room_code-digits zero i pos h = elim pos [ ]
room_code-digits (suc f) i pos h =
    rw (room_code-suc f i, pad_two-digits i h)
      (All-append (λ c. c < 58) (to_string (suc f)) _
        (digits_from-digits (suc (suc f)) (suc f) [] tt) (omega arith))

abbrev StartsWithLetter : List ℕ → Type 0
StartsWithLetter [] = ⊥
StartsWithLetter (c ∷ cs) = c ≡ b'G'

ground_floor : (index : ℕ) → StartsWithLetter (room_code 0 index)
unfolding room_code
ground_floor index = refl

not_digits : (text : List ℕ) → StartsWithLetter text → All (λ c. c < 58) text → ⊥
not_digits [] h k = h
not_digits (c ∷ cs) h k = omega arith

ground_value : (index : ℕ) → index < 100 → value_from 0 (room_code 0 index) ≡ 2300 + index
unfolding room_code value_from
ground_value i h = rw (pad_two-digits i h) (omega arith)

-- Two rooms whose places on their floors are below 100 have the same number only if they have the
-- same floor and the same place.
room_code-injective :
    (f g i j : ℕ) → i < 100 → j < 100 → room_code f i ≡ room_code g j → (f ≡ g) × (i ≡ j)
room_code-injective zero zero i j hi hj e =
    (refl, omega (arith, ground_value i hi, ground_value j hj, ap (value_from 0) e))
room_code-injective zero (suc g) i j hi hj e = absurd (
    not_digits (room_code 0 i) (ground_floor i)
      (subst (All (λ c. c < 58)) (sym e) (room_code-digits (suc g) j (omega arith) hj)))
room_code-injective (suc f) zero i j hi hj e = absurd (
    not_digits (room_code 0 j) (ground_floor j)
      (subst (All (λ c. c < 58)) e (room_code-digits (suc f) i (omega arith) hi)))
room_code-injective (suc f) (suc g) i j hi hj e = omega (
  arith,
  value-room_code (suc f) i (omega arith) hi,
  value-room_code (suc g) j (omega arith) hj,
  ap (value_from 0) e,
)

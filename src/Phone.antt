-- ===== src/Phone.antt =====
-- apps/backend/src/common/crypto/phone.util.ts: the one form of a phone number. A text is the list of
-- its character codes; a number in canonical form, `+91XXXXXXXXXX`, is the number that its digits write.
use rookopg.Prelude.{
  ℕ, zero, suc, ◌+◌, ◌*◌, ◌-◌, ◌≡◌, refl, sym, Bool, true, false, ◌&&◌, Option, none, some, List,
  [], ◌∷◌, length, select, ◌==◌, leb, if◌then◌else◌, is_some, arith, All, ◌≤◌,
}

abbrev pub is_digit : ℕ → Bool
is_digit c = leb 48 c && leb c 57

-- `/^[6-9]\d{9}$/`, of a text of digits.
unfoldable pub is_indian_mobile : List ℕ → Bool
is_indian_mobile [] = false
is_indian_mobile (c ∷ cs) = leb 54 c && leb c 57 && (length cs == 9)

abbrev from_digits : ℕ → List ℕ → ℕ
from_digits n [] = n
from_digits n (c ∷ cs) = from_digits (10 * n + (c - 48)) cs

-- `+91` and the local number.
unfoldable pub with_calling_code : List ℕ → ℕ
with_calling_code local = from_digits 91 local

abbrev starts_with : List ℕ → List ℕ → Bool
starts_with [] cs = true
starts_with (p ∷ ps) [] = false
starts_with (p ∷ ps) (c ∷ cs) = (p == c) && starts_with ps cs

abbrev drop : ℕ → List ℕ → List ℕ
drop zero cs = cs
drop (suc n) [] = []
drop (suc n) (c ∷ cs) = drop n cs

-- The local number: without the calling code, or without a leading 0.
unfoldable pub local_part : List ℕ → List ℕ
local_part digits =
    if starts_with (57 ∷ 49 ∷ []) digits && (length digits == 12)
    then drop 2 digits
    else if starts_with (48 ∷ []) digits && (length digits == 11)
    then drop 1 digits
    else digits

unfoldable pub normalise_phone : List ℕ → Option ℕ
unfolding is_indian_mobile with_calling_code local_part
normalise_phone input =
    let local = local_part (select is_digit input) in
    if is_indian_mobile local then some (with_calling_code local) else none

unfoldable pub is_valid_phone : List ℕ → Bool
is_valid_phone input = is_some (normalise_phone input)

-- A local number: ten digits, the first from 6 to 9.
abbrev pub IsLocal : List ℕ → Type 0
IsLocal [] = ⊥
IsLocal (c ∷ cs) = (54 ≤ c) × (c ≤ 57) × (length cs ≡ 9) × All (λ d. is_digit d ≡ true) cs

select_digits : (cs : List ℕ) → All (λ d. is_digit d ≡ true) cs → select is_digit cs ≡ cs
select_digits [] h = refl
select_digits (c ∷ cs) h = rw (h.0, select_digits cs h.1) refl

normalise_step :
    (input local : List ℕ)
    → local_part (select is_digit input) ≡ local
    → is_indian_mobile local ≡ true
    → normalise_phone input ≡ some (with_calling_code local)
unfolding normalise_phone
normalise_step input local part mobile = rw (part, mobile) refl

and_false : (b : Bool) → (b && false) ≡ false
and_false true = refl
and_false false = refl

local_part_ten : (ds : List ℕ) → length ds ≡ 10 → local_part ds ≡ ds
unfolding local_part
local_part_ten ds h =
    let twelve : (length ds == 12) ≡ false = ground arith in
    let eleven : (length ds == 11) ≡ false = ground arith in
    rw
      (
        twelve,
        eleven,
        and_false (starts_with (57 ∷ 49 ∷ []) ds),
        and_false (starts_with (48 ∷ []) ds),
      )
      refl

local_part_zero : (ds : List ℕ) → length ds ≡ 10 → local_part (48 ∷ ds) ≡ ds
unfolding local_part
local_part_zero ds h = let eleven : (length (48 ∷ ds) == 11) ≡ true = ground arith in rw eleven refl

local_part_code : (ds : List ℕ) → length ds ≡ 10 → local_part (57 ∷ 49 ∷ ds) ≡ ds
unfolding local_part
local_part_code ds h =
    let twelve : (length (57 ∷ 49 ∷ ds) == 12) ≡ true = ground arith in rw twelve refl

mobile : (local : List ℕ) → IsLocal local → is_indian_mobile local ≡ true
unfolding is_indian_mobile
mobile [] h = elim h [ ]
mobile (c ∷ cs) h = ground arith

digits_of : (local : List ℕ) → IsLocal local → (select is_digit local ≡ local) × (length local ≡ 10)
digits_of [] h = elim h [ ]
digits_of (c ∷ cs) h =
    let first : is_digit c ≡ true = ground arith in
    (rw (first, select_digits cs h.3) refl, omega (arith, h.2))

abbrev power_ten : ℕ → ℕ
power_ten zero = 1
power_ten (suc n) = 10 * power_ten n

-- The number that a text of digits writes, each digit at its place.
abbrev pub decimal : List ℕ → ℕ
decimal [] = 0
decimal (c ∷ cs) = (c - 48) * power_ten (length cs) + decimal cs

from_digits-decimal :
    (n : ℕ) (cs : List ℕ) → from_digits n cs ≡ n * power_ten (length cs) + decimal cs
from_digits-decimal n [] = omega arith
from_digits-decimal n (c ∷ cs) = omega (arith, from_digits-decimal (10 * n + (c - 48)) cs)

-- The calling code 91, and then the ten digits.
with_calling_code_lem :
    (local : List ℕ) → length local ≡ 10 → with_calling_code local ≡ 910000000000 + decimal local
unfolding with_calling_code
with_calling_code_lem local ten =
    let written : from_digits 91 local ≡ 91 * power_ten (length local) + decimal local =
      from_digits-decimal 91 local in
    rw ten at written

-- A local number with nothing before it, a 0, the calling code, or `+` and the calling code is one
-- and the same number: 91 and then its ten digits, each at its decimal place.
pub normalise_phone_lem :
    (local : List ℕ)
    → IsLocal local
    → (normalise_phone local ≡ some (910000000000 + decimal local))
      × (normalise_phone (48 ∷ local) ≡ some (910000000000 + decimal local))
      × (normalise_phone (57 ∷ 49 ∷ local) ≡ some (910000000000 + decimal local))
      × (normalise_phone (43 ∷ 57 ∷ 49 ∷ local) ≡ some (910000000000 + decimal local))
normalise_phone_lem local h =
    let (same, ten) = digits_of local h in
    let code = with_calling_code_lem local ten in
    rw (sym code) (
      normalise_step local local (rw same (local_part_ten local ten)) (mobile local h),
      normalise_step (48 ∷ local) local (rw same (local_part_zero local ten)) (mobile local h),
      normalise_step (57 ∷ 49 ∷ local) local (rw same (local_part_code local ten)) (mobile local h),
      normalise_step (43 ∷ 57 ∷ 49 ∷ local) local (rw same (local_part_code local ten))
          (mobile local h),
    )

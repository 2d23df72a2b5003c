-- ===== src/Prelude/Lists.antt =====
-- Lists measured by native numbers, Boolean filters, and predicates on the elements.
use Prim.Native.Nat.{ℕ, suc, ◌+◌}
use mathlib.Core.Path.{◌≡◌, refl}
use mathlib.Core.Bool.{Bool, true, false, ◌||◌}
use mathlib.Core.Option.{Option, none, some}
use mathlib.Core.List.{List, [], ◌∷◌, ◌++◌, map}
use native.Mathlib.Omega.{arith}
use mathlib.Core.Logic.{inl, inr}
use rookopg.Prelude.Tests.{if◌then◌else◌, Bool-cases}

module _ {ℓ} {A : Type ℓ} where
  abbrev pub length : List A → ℕ
  length [] = 0
  length (x ∷ xs) = suc (length xs)

  -- The elements that pass a test, in order.
  abbrev pub select : (A → Bool) → List A → List A
  select p [] = []
  select p (x ∷ xs) = if p x then x ∷ select p xs else select p xs

  abbrev pub any : (A → Bool) → List A → Bool
  any p [] = false
  any p (x ∷ xs) = p x || any p xs

  abbrev pub find : (A → Bool) → List A → Option A
  find p [] = none
  find p (x ∷ xs) = if p x then some x else find p xs

  abbrev pub sum_of : (A → ℕ) → List A → ℕ
  sum_of f [] = 0
  sum_of f (x ∷ xs) = f x + sum_of f xs

  pub length-append : (xs ys : List A) → length (xs ++ ys) ≡ length xs + length ys
  length-append [] ys = omega arith
  length-append (x ∷ xs) ys = omega (arith, length-append xs ys)

  pub sum_of-append : (f : A → ℕ) (xs ys : List A) → sum_of f (xs ++ ys) ≡ sum_of f xs + sum_of f ys
  sum_of-append f [] ys = omega arith
  sum_of-append f (x ∷ xs) ys = omega (arith, sum_of-append f xs ys)

module _ {ℓ κ} {A : Type ℓ} where
  abbrev pub All : (A → Type κ) → List A → Type κ
  All P [] = Unit
  All P (x ∷ xs) = P x × All P xs

  pub All-append : (P : A → Type κ) (xs ys : List A) → All P xs → All P ys → All P (xs ++ ys)
  All-append P [] ys h k = k
  All-append P (x ∷ xs) ys h k = (h.0, All-append P xs ys h.1 k)

  pub All-map :
      (P : A → Type κ) (f : A → A) (xs : List A)
      → ((a : A) → P a → P (f a))
      → All P xs
      → All P (map f xs)
  All-map P f [] k h = tt
  All-map P f (x ∷ xs) k h = (k x h.0, All-map P f xs k h.1)

  pub All-imp : (P Q : A → Type κ) (xs : List A) → ((a : A) → P a → Q a) → All P xs → All Q xs
  All-imp P Q [] k h = tt
  All-imp P Q (x ∷ xs) k h = (k x h.0, All-imp P Q xs k h.1)

  pub All-All : (P : A → Type κ) (xs : List A) → ((a : A) → P a) → All P xs
  All-All P [] k = tt
  All-All P (x ∷ xs) k = (k x, All-All P xs k)

pub All-into {ℓ κ} :
    {A B : Type ℓ} (P : A → Type κ) (Q : B → Type κ) (f : A → B) (xs : List A)
    → ((a : A) → P a → Q (f a))
    → All P xs
    → All Q (map f xs)
All-into P Q f [] k h = tt
All-into P Q f (x ∷ xs) k h = (k x h.0, All-into P Q f xs k h.1)

pub All-select {ℓ} : {A : Type ℓ} (p : A → Bool) (xs : List A) → All (λ x. p x ≡ true) (select p xs)
All-select p [] = tt
All-select p (x ∷ xs) = elim (Bool-cases (p x)) [
  | inl here ↦ rw here (here, All-select p xs)
  | inr there ↦ rw there (All-select p xs)
]

pub any-later {ℓ} :
    {A : Type ℓ} (q : A → Bool) (x : A) (xs : List A) → any q xs ≡ true → any q (x ∷ xs) ≡ true
any-later q x xs h = elim (Bool-cases (q x)) [ inl here ↦ rw here refl | inr there ↦ rw there h ]

any-select-later {ℓ} :
    {A : Type ℓ} (q p : A → Bool) (x : A) (xs : List A)
    → any q (select p xs) ≡ true
    → any q (select p (x ∷ xs)) ≡ true
any-select-later q p x xs h = elim (Bool-cases (p x)) [
  | inl here ↦ rw here (any-later q x (select p xs) h)
  | inr there ↦ rw there h
]

-- What an element passes, some element passes.
pub All-any {ℓ} :
    {A : Type ℓ} (xs : List A) → All (λ x. (q : A → Bool) → q x ≡ true → any q xs ≡ true) xs
All-any [] = tt
All-any (x ∷ xs) =
    (λ q h. rw h refl, All-imp _ _ xs (λ y there q h. any-later q x xs (there q h)) (All-any xs))

pub any-select {ℓ} :
    {A : Type ℓ} (q p : A → Bool) (xs : List A) → any q (select p xs) ≡ true → any q xs ≡ true
any-select q p [] h = h
any-select q p (x ∷ xs) h = elim (Bool-cases (p x)) [
  | inl here ↦ ground (arith, any-select q p xs)
  | inr there ↦ any-later q x xs (any-select q p xs (rw there at h))
]

-- The same, of the elements that are selected.
pub All-selected {ℓ} :
    {A : Type ℓ} (p : A → Bool) (xs : List A)
    → All (λ x. (q : A → Bool) → q x ≡ true → p x ≡ true → any q (select p xs) ≡ true) xs
All-selected p [] = tt
All-selected p (x ∷ xs) = (
  λ q h here. rw (here, h) refl,
  All-imp _ _ xs (λ y there q h passes. any-select-later q p x xs (there q h passes))
      (All-selected p xs),
)

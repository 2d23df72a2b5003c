-- ===== src/Tests/ListClient.antt =====
-- A client of the database that keeps a table as a list: what the client's laws promise can hold.
use rookopg.Prelude.{
  ℕ, leb, leb→le, leb→lt, ◌≤◌, ◌+◌, sum_of, ℕ, zero, suc, ◌≡◌, refl, sym, Bool, true, false, not,
  none, some, List, [], ◌∷◌, any, find, select, length, All, if◌then◌else◌, arith, Bool-cases, inl,
  inr,
}
use rookopg.Errors.{ok, throw, record_missing}
use rookopg.Database.Client.{Prisma, changed, Ascending, insert_missing}

abbrev take_matching : {Row : Type 0} → ℕ → (Row → Bool) → List Row → List Row
take_matching zero p rows = []
take_matching (suc n) p [] = []
take_matching (suc n) p (r ∷ rows) =
    if p r then r ∷ take_matching n p rows else take_matching (suc n) p rows

abbrev FindFirstLaw : {Row : Type 0} → (Row → Bool) → List Row → Type 0
FindFirstLaw p rows = All (λ r. p r ≡ true) rows

take_if :
    {Row : Type 0} (n : ℕ) (p : Row → Bool) (r : Row) (rows : List Row) (b : Bool)
    → p r ≡ b
    → FindFirstLaw p (take_matching n p rows)
    → FindFirstLaw p (take_matching (suc n) p rows)
    → FindFirstLaw p (if b then r ∷ take_matching n p rows else take_matching (suc n) p rows)
take_if n p r rows true e h k = (e, h)
take_if n p r rows false e h k = k

pub take_matches :
    {Row : Type 0} (n : ℕ) (p : Row → Bool) (rows : List Row)
    → FindFirstLaw p (take_matching n p rows)
take_matches zero p rows = tt
take_matches (suc n) p [] = tt
take_matches (suc n) p (r ∷ rows) =
    take_if n p r rows (p r) refl (take_matches n p rows) (take_matches (suc n) p rows)

pub take_all :
    {Row : Type 0} (n : ℕ) (p : Row → Bool) (rows : List Row)
    → length (select p rows) ≤ n
    → take_matching n p rows ≡ select p rows
take_all zero p [] h = refl
take_all zero p (r ∷ rows) h = elim (Bool-cases (p r)) [
  | inl here ↦ ground arith
  | inr there ↦ ground (arith, take_all zero p rows)
]
take_all (suc n) p [] h = refl
take_all (suc n) p (r ∷ rows) h = elim (Bool-cases (p r)) [
  | inl here ↦ ground (arith, take_all n p rows)
  | inr there ↦ ground (arith, take_all (suc n) p rows)
]

pub find-some :
    {Row : Type 0} (p : Row → Bool) (rows : List Row) (r : Row) → find p rows ≡ some r → p r ≡ true
find-some p [] r h = ground arith
find-some p (x ∷ rows) r h = elim (Bool-cases (p x)) [
  | inl here ↦ ground arith
  | inr there ↦ ground (arith, find-some p rows r)
]

pub find-none :
    {Row : Type 0} (p : Row → Bool) (rows : List Row) → find p rows ≡ none → any p rows ≡ false
find-none p [] h = refl
find-none p (x ∷ rows) h = elim (Bool-cases (p x)) [
  | inl here ↦ ground arith
  | inr there ↦ ground (arith, find-none p rows)
]

pub find-any :
    {Row : Type 0} (p : Row → Bool) (rows : List Row) → any p rows ≡ false → find p rows ≡ none
find-any p [] h = refl
find-any p (x ∷ rows) h = ground (arith, find-any p rows)

pub find-All :
    {Row : Type 0} (p : Row → Bool) (P : Row → Type 0) (rows : List Row) (r : Row)
    → All P rows
    → find p rows ≡ some r
    → P r
find-All p P [] r h found = ground arith
find-All p P (x ∷ rows) r h found = elim (Bool-cases (p x)) [
  | inl here ↦ let same : x ≡ r = ground arith in rw (sym same) h.0
  | inr there ↦ find-All p P rows r h.1 (rw there at found)
]

abbrev insert_by : {Row : Type 0} → (Row → ℕ) → Row → List Row → List Row
insert_by key r [] = r ∷ []
insert_by key r (x ∷ rows) = if leb (key r) (key x) then r ∷ x ∷ rows else x ∷ insert_by key r rows

abbrev sort_by : {Row : Type 0} → (Row → ℕ) → List Row → List Row
sort_by key [] = []
sort_by key (r ∷ rows) = insert_by key r (sort_by key rows)

sum_of-insert_by :
    {Row : Type 0} (key f : Row → ℕ) (r : Row) (rows : List Row)
    → sum_of f (insert_by key r rows) ≡ f r + sum_of f rows
sum_of-insert_by key f r [] = refl
sum_of-insert_by key f r (x ∷ rows) = ground (arith, sum_of-insert_by key f r rows)

pub sum_of-sort_by :
    {Row : Type 0} (key f : Row → ℕ) (rows : List Row) → sum_of f (sort_by key rows) ≡ sum_of f rows
sum_of-sort_by key f [] = refl
sum_of-sort_by key f (r ∷ rows) =
    omega (arith, sum_of-insert_by key f r (sort_by key rows), sum_of-sort_by key f rows)

Above : {Row : Type 0} → (Row → ℕ) → ℕ → List Row → Type 0
Above key n rows = All (λ r. n ≤ key r) rows

Above-insert_by :
    {Row : Type 0} (key : Row → ℕ) (n : ℕ) (r : Row) (rows : List Row)
    → n ≤ key r
    → Above key n rows
    → Above key n (insert_by key r rows)
unfolding Above
Above-insert_by key n r [] h k = (h, tt)
Above-insert_by key n r (x ∷ rows) h k = ground (arith, Above-insert_by key n r rows h k.1)

Above-imp :
    {Row : Type 0} (key : Row → ℕ) (m n : ℕ) (rows : List Row)
    → m ≤ n
    → Above key n rows
    → Above key m rows
unfolding Above
Above-imp key m n [] h k = tt
Above-imp key m n (x ∷ rows) h k = (omega (arith, k.0), Above-imp key m n rows h k.1)

Ascending-insert_by :
    {Row : Type 0} (key : Row → ℕ) (r : Row) (rows : List Row)
    → Ascending key rows
    → Ascending key (insert_by key r rows)
unfolding Above
Ascending-insert_by key r [] h = (tt, tt)
Ascending-insert_by key r (x ∷ rows) h = elim (Bool-cases (leb (key r) (key x))) [
  | inl first ↦ rw first (
    (
      leb→le (key r) (key x) first,
      Above-imp key (key r) (key x) rows (leb→le (key r) (key x) first) h.0,
    ),
    h,
  )
  | inr later ↦ rw later (
    Above-insert_by key (key x) r rows (omega (arith, leb→lt (key r) (key x) later)) h.0,
    Ascending-insert_by key r rows h.1,
  )
]

pub Ascending-sort_by :
    {Row : Type 0} (key : Row → ℕ) (rows : List Row) → Ascending key (sort_by key rows)
Ascending-sort_by key [] = tt
Ascending-sort_by key (r ∷ rows) =
    Ascending-insert_by key r (sort_by key rows) (Ascending-sort_by key rows)

if_either : {A : Type 0} (b : Bool) (P : A → Type 0) (x y : A) → P x → P y → P (if b then x else y)
if_either true P x y h k = h
if_either false P x y h k = k

All-insert_by :
    {Row : Type 0} (key : Row → ℕ) (P : Row → Type 0) (r : Row) (rows : List Row)
    → P r
    → All P rows
    → All P (insert_by key r rows)
All-insert_by key P r [] h k = (h, tt)
All-insert_by key P r (x ∷ rows) h k =
    if_either (leb (key r) (key x)) (All P) (r ∷ x ∷ rows) (x ∷ insert_by key r rows) (h, k)
      (k.0, All-insert_by key P r rows h k.1)

pub All-sort_by :
    {Row : Type 0} (key : Row → ℕ) (P : Row → Type 0) (rows : List Row)
    → All P rows
    → All P (sort_by key rows)
All-sort_by key P [] h = tt
All-sort_by key P (r ∷ rows) h =
    All-insert_by key P r (sort_by key rows) h.0 (All-sort_by key P rows h.1)

pub All-select :
    {Row : Type 0} (p : Row → Bool) (P : Row → Type 0) (rows : List Row)
    → All P rows
    → All P (select p rows)
All-select p P [] h = tt
All-select p P (r ∷ rows) h =
    if_either (p r) (All P) (r ∷ select p rows) (select p rows) (h.0, All-select p P rows h.1)
      (All-select p P rows h.1)

abbrev pub list_prisma : Prisma
list_prisma = record {
  create = λ Row r rows. r ∷ rows;
  delete_many = λ Row p rows. select (λ r. not (p r)) rows;
  update_many = λ Row p f rows. changed p f rows;
  update = λ Row p f rows. if any p rows then ok (changed p f rows) else throw record_missing;
  find_first = λ Row p rows. find p rows;
  find_many = λ Row p rows. select p rows;
  find_up_to = λ Row n p rows. take_matching n p rows;
  find_ordered = λ Row key p rows. sort_by key (select p rows);
  create_many = λ Row clash new rows. insert_missing clash new rows;
  find_ordered-Ascending = λ Row key p rows. Ascending-sort_by key (select p rows);
  find_ordered-sum = λ Row key p rows f. sum_of-sort_by key f (select p rows);
  find_ordered-All =
      λ Row key p P rows h. All-sort_by key P (select p rows) (All-select p P rows h);
  create_many-eq = λ Row clash new rows. refl;
  create-eq = λ Row r rows. refl;
  delete_many-eq = λ Row p rows. refl;
  update_many-eq = λ Row p f rows. refl;
  update_found = λ Row p f rows h. rw h refl;
  update_missing = λ Row p f rows h. rw h refl;
  find_first-some = λ Row p rows r h. find-some p rows r h;
  find_first-none = λ Row p rows h. find-none p rows h;
  find_first-any = λ Row p rows h. find-any p rows h;
  find_first-All = λ Row p P rows r h found. find-All p P rows r h found;
  find_many-eq = λ Row p rows. refl;
  find_up_to-matches = λ Row n p rows. take_matches n p rows;
  find_up_to-any = λ Row n p q rows h. rw (take_all n p rows h) refl;
}

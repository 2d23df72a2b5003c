-- ===== src/Database/Client.antt =====
-- The database client, Prisma over PostgreSQL: a third party, so its calls are parameters, with what
-- their documentation says of them. A table is the list of its rows.
use rookopg.Prelude.{
  [], sum_of, ◌+◌, ◌≤◌, All, ℕ, ◌≡◌, Bool, true, false, not, Option, none, some, List, ◌∷◌, map,
  any, select, length, if◌then◌else◌, arith, All, Bool-cases, Option-cases, inl, inr, sym, ◌∙◌,
}
use rookopg.Errors.{Result, ok, throw, record_missing}

-- The rows with those that match changed.
abbrev pub changed : {Row : Type 0} → (Row → Bool) → (Row → Row) → List Row → List Row
changed p f rows = map (λ r. if p r then f r else r) rows

-- `createMany` with `skipDuplicates`, row by row: a row that clashes with one that is there under a
-- unique index is skipped. With the number of rows that were added.
abbrev pub insert_missing : {Row : Type 0} → (Row → Row → Bool) → List Row → List Row → ℕ × List Row
insert_missing clash [] rows = (0, rows)
insert_missing clash (r ∷ new) rows =
    if any (clash r) rows
    then insert_missing clash new rows
    else (let (n, rows') = insert_missing clash new (r ∷ rows) in (n + 1, rows'))

abbrev pub Ascending : {Row : Type 0} → (Row → ℕ) → List Row → Type 0
Ascending key [] = Unit
Ascending key (r ∷ rows) = All (λ r'. key r ≤ key r') rows × Ascending key rows

pub record Prisma : Type 1 where
  pub create : (Row : Type 0) → Row → List Row → List Row
  pub update_many : (Row : Type 0) → (Row → Bool) → (Row → Row) → List Row → List Row
  pub update : (Row : Type 0) → (Row → Bool) → (Row → Row) → List Row → Result (List Row)
  pub delete_many : (Row : Type 0) → (Row → Bool) → List Row → List Row
  pub find_first : (Row : Type 0) → (Row → Bool) → List Row → Option Row
  pub find_many : (Row : Type 0) → (Row → Bool) → List Row → List Row
  pub find_up_to : (Row : Type 0) → ℕ → (Row → Bool) → List Row → List Row
  pub find_ordered : (Row : Type 0) → (Row → ℕ) → (Row → Bool) → List Row → List Row
  pub create_many : (Row : Type 0) → (Row → Row → Bool) → List Row → List Row → ℕ × List Row
  -- a new row joins the others
  pub create-eq : (Row : Type 0) (r : Row) (rows : List Row) → create Row r rows ≡ r ∷ rows
  -- every row that matches is changed, and no other
  pub update_many-eq :
      (Row : Type 0) (p : Row → Bool) (f : Row → Row) (rows : List Row)
      → update_many Row p f rows ≡ changed p f rows
  -- every row that matches goes, and no other
  pub delete_many-eq :
      (Row : Type 0) (p : Row → Bool) (rows : List Row)
      → delete_many Row p rows ≡ select (λ r. not (p r)) rows
  -- `update` throws where no row matches
  pub update_found :
      (Row : Type 0) (p : Row → Bool) (f : Row → Row) (rows : List Row)
      → any p rows ≡ true
      → update Row p f rows ≡ ok (changed p f rows)
  pub update_missing :
      (Row : Type 0) (p : Row → Bool) (f : Row → Row) (rows : List Row)
      → any p rows ≡ false
      → update Row p f rows ≡ throw record_missing
  -- `findFirst` returns some row of the table that matches, and null only where none does
  pub find_first-some :
      (Row : Type 0) (p : Row → Bool) (rows : List Row) (r : Row)
      → find_first Row p rows ≡ some r
      → p r ≡ true
  pub find_first-none :
      (Row : Type 0) (p : Row → Bool) (rows : List Row)
      → find_first Row p rows ≡ none
      → any p rows ≡ false
  pub find_first-any :
      (Row : Type 0) (p : Row → Bool) (rows : List Row)
      → any p rows ≡ false
      → find_first Row p rows ≡ none
  pub find_first-All :
      (Row : Type 0) (p : Row → Bool) (P : Row → Type 0) (rows : List Row) (r : Row)
      → All P rows
      → find_first Row p rows ≡ some r
      → P r
  pub find_many-eq :
      (Row : Type 0) (p : Row → Bool) (rows : List Row) → find_many Row p rows ≡ select p rows
  -- with `orderBy`, the rows that match in ascending order, each as often as in the table: any sum
  -- over them is the same
  pub find_ordered-Ascending :
      (Row : Type 0) (key : Row → ℕ) (p : Row → Bool) (rows : List Row)
      → Ascending key (find_ordered Row key p rows)
  pub find_ordered-sum :
      (Row : Type 0) (key : Row → ℕ) (p : Row → Bool) (rows : List Row) (f : Row → ℕ)
      → sum_of f (find_ordered Row key p rows) ≡ sum_of f (select p rows)
  -- and they are rows of the table
  pub find_ordered-All :
      (Row : Type 0) (key : Row → ℕ) (p : Row → Bool) (P : Row → Type 0) (rows : List Row)
      → All P rows
      → All P (find_ordered Row key p rows)
  -- with `skipDuplicates`, no row that clashes with another is added
  pub create_many-eq :
      (Row : Type 0) (clash : Row → Row → Bool) (new rows : List Row)
      → create_many Row clash new rows ≡ insert_missing clash new rows
  -- with a limit, some of the rows that match
  pub find_up_to-matches :
      (Row : Type 0) (n : ℕ) (p : Row → Bool) (rows : List Row)
      → All (λ r. p r ≡ true) (find_up_to Row n p rows)
  -- and all of them, where they are no more than the limit
  pub find_up_to-any :
      (Row : Type 0) (n : ℕ) (p q : Row → Bool) (rows : List Row)
      → length (select p rows) ≤ n
      → any q (find_up_to Row n p rows) ≡ any q (select p rows)

module _ (prisma : Prisma) where
  -- What `update` returns where it does not throw.
  pub update_ok :
      {Row : Type 0} (p : Row → Bool) (f : Row → Row) (rows : List Row) {rows' : List Row}
      → prisma.update Row p f rows ≡ ok rows'
      → rows' ≡ changed p f rows
  update_ok {Row} p f rows {rows'} h = elim (Bool-cases (any p rows)) [
    | inl found ↦
        let same : ok rows' ≡ ok (changed p f rows) =
          sym h ∙ prisma.update_found Row p f rows found in
        ground arith
    | inr missing ↦
        let thrown : ok rows' ≡ throw record_missing =
          sym h ∙ prisma.update_missing Row p f rows missing in
        ground arith
  ]

  -- Where some row matches, `findFirst` does not return null.
  pub find_first-found :
      {Row : Type 0} (p : Row → Bool) (rows : List Row)
      → any p rows ≡ true
      → (r : Row) × (prisma.find_first Row p rows ≡ some r) × (p r ≡ true)
  find_first-found {Row} p rows h = elim (Option-cases (prisma.find_first Row p rows)) [
    | inl missing ↦ let absent = prisma.find_first-none Row p rows missing in ground arith
    | inr (r, found) ↦ (r, found, prisma.find_first-some Row p rows r found)
  ]

-- ===== src/Database/Unique.antt =====
-- What `createMany` with `skipDuplicates` does to a table with a unique index.
use rookopg.Prelude.{
  ◌≡◌, refl, Bool, true, false, List, [], ◌∷◌, any, All, All-imp, arith, Bool-cases, inl, inr,
}
use rookopg.Database.Client.{insert_missing}

module _ {Row : Type 0} (clash : Row → Row → Bool) where
  -- No two rows clash.
  abbrev pub Unique : List Row → Type 0
  Unique [] = Unit
  Unique (r ∷ rows) = All (λ r'. clash r r' ≡ false) rows × Unique rows

  none_clash : (p : Row → Bool) (rows : List Row) → any p rows ≡ false → All (λ r. p r ≡ false) rows
  none_clash p [] h = tt
  none_clash p (r ∷ rows) h = (ground arith, none_clash p rows (ground arith))

  pub insert_missing-Unique :
      (new rows : List Row) → Unique rows → Unique (insert_missing clash new rows).1
  insert_missing-Unique [] rows h = h
  insert_missing-Unique (r ∷ new) rows h = elim (Bool-cases (any (clash r) rows)) [
    | inl there ↦ rw there (insert_missing-Unique new rows h)
    | inr free ↦ rw free (insert_missing-Unique new (r ∷ rows) (none_clash (clash r) rows free, h))
  ]

  pub insert_missing-keeps :
      (p : Row → Bool) (new rows : List Row)
      → any p rows ≡ true
      → any p (insert_missing clash new rows).1 ≡ true
  insert_missing-keeps p [] rows h = h
  insert_missing-keeps p (r ∷ new) rows h = elim (Bool-cases (any (clash r) rows)) [
    | inl there ↦ rw there (insert_missing-keeps p new rows h)
    | inr free ↦ rw free (insert_missing-keeps p new (r ∷ rows) (ground arith))
  ]

  there_too :
      (start : List Row) (r : Row) (new rows : List Row)
      → (insert_missing clash (r ∷ new) start).1 ≡ (insert_missing clash new rows).1
      → All (λ r'. any (clash r') (insert_missing clash new rows).1 ≡ true) new
      → All (λ r'. any (clash r') (insert_missing clash (r ∷ new) start).1 ≡ true) new
  there_too start r new rows same h =
      All-imp (λ r'. any (clash r') (insert_missing clash new rows).1 ≡ true)
        (λ r'. any (clash r') (insert_missing clash (r ∷ new) start).1 ≡ true) new
        (λ r' k. rw same k) h

  -- Every row that was given is there, or one that it clashes with.
  pub insert_missing-has :
      (new rows : List Row)
      → ((r : Row) → clash r r ≡ true)
      → All (λ r. any (clash r) (insert_missing clash new rows).1 ≡ true) new
  insert_missing-has [] rows self = tt
  insert_missing-has (r ∷ new) rows self = elim (Bool-cases (any (clash r) rows)) [
    | inl there ↦
        let same : (insert_missing clash (r ∷ new) rows).1 ≡ (insert_missing clash new rows).1 =
          rw there refl in
        (
          rw same (insert_missing-keeps (clash r) new rows there),
          there_too rows r new rows same (insert_missing-has new rows self),
        )
    | inr free ↦
        let same : (insert_missing clash (r ∷ new) rows).1
            ≡ (insert_missing clash new (r ∷ rows)).1 =
          rw free refl in
        (
          rw same (insert_missing-keeps (clash r) new (r ∷ rows) (rw (self r) refl)),
          there_too rows r new (r ∷ rows) same (insert_missing-has new (r ∷ rows) self),
        )
  ]

  -- Where each is there already, nothing is added.
  pub insert_missing-none :
      (new rows : List Row)
      → All (λ r. any (clash r) rows ≡ true) new
      → insert_missing clash new rows ≡ (0, rows)
  insert_missing-none [] rows h = refl
  insert_missing-none (r ∷ new) rows h = rw h.0 (insert_missing-none new rows h.1)

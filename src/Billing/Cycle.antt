-- ===== src/Billing/Cycle.antt =====
-- Billing again and again: what `generateForProperty` and the unique index do together.
use rookopg.Prelude.{
  ℕ, ◌+◌, ◌/◌, ◌≡◌, refl, ap, ◌∙◌, true, List, [], ◌∷◌, any, All, All-imp, ==_refl, arith, ◌↔◌,
  Bool, false, ◌&&◌, ◌==◌, ◌*◌, ◌++◌, map, select, sym, ◌⊎◌, inl, inr, Bool-cases,
}
use rookopg.Calendar.{Date, ms_per_day, get_utc_full_year, get_utc_month, get_utc_date}
use rookopg.RentCycle.{RentPeriod, start_of_day, rent_periods}
use rookopg.RentCycle.Dates.{start_of_day-eq}
use rookopg.Database.{Invoice, rent, Tenancy, TenancyStatus, tenancy_active, notice_given, Db}
use rookopg.Database.Client.{Prisma, insert_missing}
use rookopg.Database.Unique.{Unique, insert_missing-Unique, insert_missing-has, insert_missing-none}
use rookopg.Billing.Repository.{
  NewInvoice, invoice_of, numbered, same_cycle, kind_code, same_key, is_current, create_invoices,
  list_billable_tenancies,
}
use rookopg.Billing.Service.{
  generate_for_property, owed_invoices, cutoff_at, cycle_key_for, cycle_options, new_invoice,
}

-- The invoice is there: one of the same tenancy, kind and period.
abbrev pub Billed : List Invoice → NewInvoice → Type 0
Billed rows new = any (same_cycle (invoice_of 0 new)) rows ≡ true

same_cycle_refl : (v : Invoice) → same_cycle v v ≡ true
same_cycle_refl v =
    rw
      (
        ==_refl v.tenancy_id,
        ==_refl (kind_code v.kind),
        ==_refl v.cycle_key.0,
        ==_refl v.cycle_key.1,
        ==_refl v.cycle_key.2,
      )
      refl

Billed-numbered :
    (rows : List Invoice) (id : ℕ) (new : List NewInvoice)
    → All (λ r. any (same_cycle r) rows ≡ true) (numbered id new)
    → All (Billed rows) new
Billed-numbered rows id [] h = tt
Billed-numbered rows id (n ∷ new) h = (h.0, Billed-numbered rows (id + 1) new h.1)

numbered-Billed :
    (rows : List Invoice) (id : ℕ) (new : List NewInvoice)
    → All (Billed rows) new
    → All (λ r. any (same_cycle r) rows ≡ true) (numbered id new)
numbered-Billed rows id [] h = tt
numbered-Billed rows id (n ∷ new) h = (h.0, numbered-Billed rows (id + 1) new h.1)

-- The periods of a tenancy that begin by the end of the seventh day.
abbrev pub due_periods : Date → Tenancy → List RentPeriod
due_periods now t = rent_periods (record {
  start_date = t.start_date;
  cycle_anchor_day = t.cycle_anchor_day;
  monthly_rent_paise = t.agreed_rent_paise;
  up_to = start_of_day now + 7 * ms_per_day;
  end_date = t.end_date;
})

-- There is a rent invoice of the tenancy for the period.
abbrev pub HasInvoice : List Invoice → Tenancy → RentPeriod → Type 0
HasInvoice rows t period =
    any
      (λ v.
        (t.id == v.tenancy_id)
        && (kind_code rent == kind_code v.kind)
        && same_key (cycle_key_for period.period_start) v.cycle_key)
      rows
    ≡ true

All-front :
    {A B : Type 0} (P : B → Type 0) (f : A → B) (xs : List A) (ys : List B)
    → All P (map f xs ++ ys)
    → All (λ x. P (f x)) xs × All P ys
All-front P f [] ys h = (tt, h)
All-front P f (x ∷ xs) ys h = let rest = All-front P f xs ys h.1 in ((h.0, rest.0), rest.1)

All-unselect :
    {A : Type 0} (p : A → Bool) (P : A → Type 0) (xs : List A)
    → All P (select p xs)
    → All (λ x. p x ≡ true → P x) xs
All-unselect p P [] h = tt
All-unselect p P (x ∷ xs) h = elim (Bool-cases (p x)) [
  | inl here ↦ let h' = rw here at h in (λ _. h'.0, All-unselect p P xs h'.1)
  | inr there ↦ (
    λ passes. absurd (let no : true ≡ false = sym passes ∙ there in ground arith),
    All-unselect p P xs (rw there at h),
  )
]

owed_by_tenancy :
    (rows : List Invoice) (cutoff : Date) (ts : List Tenancy)
    → All (Billed rows) (owed_invoices cutoff ts)
    → All (λ t. All (HasInvoice rows t) (rent_periods (cycle_options cutoff t))) ts
unfolding owed_invoices
owed_by_tenancy rows cutoff [] h = tt
owed_by_tenancy rows cutoff (t ∷ ts) h =
    let (own, rest) =
      All-front (Billed rows) (new_invoice t) (rent_periods (cycle_options cutoff t))
        (owed_invoices cutoff ts) h in
    (own, owed_by_tenancy rows cutoff ts rest)

current :
    (status : TenancyStatus)
    → (status ≡ tenancy_active) ⊎ (status ≡ notice_given)
    → is_current status ≡ true
current status (inl active) = rw active refl
current status (inr notice) = rw notice refl

key_of_day : (a b : Date) → a / ms_per_day ≡ b / ms_per_day → cycle_key_for a ≡ cycle_key_for b
unfolding cycle_key_for get_utc_full_year get_utc_month get_utc_date
key_of_day a b same = rw same refl

day_of_key : (a b : Date) → cycle_key_for a ≡ cycle_key_for b → start_of_day a ≡ start_of_day b
unfolding cycle_key_for start_of_day
day_of_key a b same = rw (ap (λ k. k.0) same, ap (λ k. k.1) same, ap (λ k. k.2) same) refl

-- Two times have the same cycle key exactly if they lie on the same day.
cycle_key_for_lem :
    (a b : Date) → (cycle_key_for a ≡ cycle_key_for b) ↔ (start_of_day a ≡ start_of_day b)
cycle_key_for_lem a b = (
  day_of_key a b,
  λ same. key_of_day a b (omega (arith, same, start_of_day-eq a, start_of_day-eq b)),
)

module _ (prisma : Prisma) where
  abbrev pub owed_at : Date → ℕ → Db → List NewInvoice
  owed_at now property_id db =
      owed_invoices (cutoff_at now) (list_billable_tenancies prisma property_id db)

  inserted :
      (now : Date) (property_id : ℕ) (db : Db)
      → (generate_for_property prisma now property_id db).1.invoices
        ≡ (insert_missing same_cycle
            (numbered db.next_id (owed_at now property_id db))
            db.invoices).1
  unfolding generate_for_property create_invoices
  inserted now property_id db =
      ap (λ r. r.1)
        (prisma.create_many-eq Invoice same_cycle (numbered db.next_id (owed_at now property_id db))
          db.invoices)

  inserted_count :
      (now : Date) (property_id : ℕ) (db : Db)
      → (generate_for_property prisma now property_id db).0.created
        ≡ (insert_missing same_cycle
            (numbered db.next_id (owed_at now property_id db))
            db.invoices).0
  unfolding generate_for_property create_invoices
  inserted_count now property_id db =
      ap (λ r. r.0)
        (prisma.create_many-eq Invoice same_cycle (numbered db.next_id (owed_at now property_id db))
          db.invoices)

  -- What was owed is billed.
  owed-Billed :
      (now : Date) (property_id : ℕ) (db : Db)
      → All
          (Billed (generate_for_property prisma now property_id db).1.invoices)
          (owed_invoices (cutoff_at now) (list_billable_tenancies prisma property_id db))
  owed-Billed now property_id db =
      let new = owed_at now property_id db in
      let rows = (generate_for_property prisma now property_id db).1.invoices in
      Billed-numbered rows db.next_id new (
        All-imp _ _ (numbered db.next_id new) (λ r h. rw (inserted now property_id db) h)
          (insert_missing-has same_cycle (numbered db.next_id new) db.invoices same_cycle_refl))

  -- Once a property has been billed, every period that begins within seven days, of every tenancy of
  -- the property that is active or under notice, has a rent invoice of that tenancy.
  pub generate_for_property-Billed :
      (now : Date) (property_id : ℕ) (db : Db)
      → All
          (λ t.
            t.property_id ≡ property_id
            → (t.status ≡ tenancy_active) ⊎ (t.status ≡ notice_given)
            → All
                (HasInvoice (generate_for_property prisma now property_id db).1.invoices t)
                (due_periods now t))
          db.tenancies
  unfolding list_billable_tenancies
  generate_for_property-Billed now property_id db =
      let rows = (generate_for_property prisma now property_id db).1.invoices in
      let billable : Tenancy → Bool = λ t. (t.property_id == property_id) && is_current t.status in
      let found = prisma.find_many-eq Tenancy billable db.tenancies in
      let owed : All (Billed rows) (owed_invoices (cutoff_at now) (select billable db.tenancies)) =
        rw found at (owed-Billed now property_id db) in
      All-imp _ _ db.tenancies
        (λ t each here status. each (let same = current t.status status in ground arith))
        (All-unselect billable _ db.tenancies
          (owed_by_tenancy rows (cutoff_at now) (select billable db.tenancies) owed))

  -- Billing keeps the index: no two invoices are of the same tenancy, kind and period.
  generate_for_property-Unique :
      (now : Date) (property_id : ℕ) (db : Db)
      → Unique same_cycle db.invoices
      → Unique same_cycle (generate_for_property prisma now property_id db).1.invoices
  generate_for_property-Unique now property_id db h = rw (inserted now property_id db) (
      insert_missing-Unique same_cycle (numbered db.next_id (owed_at now property_id db))
        db.invoices h)

  owed_again :
      (now later : Date) (property_id : ℕ) (db : Db)
      → start_of_day later ≡ start_of_day now
      → owed_at later property_id (generate_for_property prisma now property_id db).1
        ≡ owed_at now property_id db
  unfolding generate_for_property create_invoices list_billable_tenancies
  owed_again now later property_id db same = rw same refl

  -- Billing a property again on the same day creates no invoice and leaves the table as it is.
  pub generate_for_property_again :
      (now later : Date) (property_id : ℕ) (db : Db)
      → start_of_day later ≡ start_of_day now
      → let (first, db1) = generate_for_property prisma now property_id db in
        let (second, db2) = generate_for_property prisma later property_id db1 in
        (second.created ≡ 0) × (db2.invoices ≡ db1.invoices)
  generate_for_property_again now later property_id db same =
      let db1 = (generate_for_property prisma now property_id db).1 in
      let none_new =
        insert_missing-none same_cycle (numbered db1.next_id (owed_at now property_id db))
          db1.invoices
          (numbered-Billed db1.invoices db1.next_id (owed_at now property_id db)
            (owed-Billed now property_id db)) in
      (
        inserted_count later property_id db1
            ∙ (rw (owed_again now later property_id db same) (ap (λ r. r.0) none_new)),
        inserted later property_id db1
            ∙ (rw (owed_again now later property_id db same) (ap (λ r. r.1) none_new)),
      )

-- ===== src/Billing/Dues.antt =====
-- The page of `dues` against the invoices themselves.
use rookopg.Prelude.{
  ℕ, ◌+◌, ◌≡◌, refl, ap, ◌∙◌, Bool, true, false, not, List, [], ◌∷◌, ◌==◌, ◌&&◌, ◌||◌, any, map,
  select, sum_of, arith, if◌then◌else◌, Bool-cases, inl, inr, ==_refl, ==_iff, All, All-imp,
  sum_of-append,
}
use rookopg.Calendar.{Date}
use rookopg.Database.{Invoice, PaymentAllocation, Tenancy, Db}
use rookopg.Database.Client.{Prisma}
use rookopg.Billing.Repository.{
  InvoiceRow, row_of, is_void, is_paid, is_current, owes, list_billable_tenancies,
  list_tenancies_for_dues, unallocated_credit, invoices_for_tenancies,
}
use rookopg.Billing.Service.{
  TenantDues, is_unpaid, due_of_row, to_dues, insert_dues, sort_dues, dues_of, more_pressing,
}
use rookopg.Billing.Amounts.{due_of}

-- What the tenancy's invoices that are not void still want.
abbrev pub owed_by : Db → Tenancy → ℕ
owed_by db t =
    sum_of (due_of db.payment_allocations)
      (select (λ v. (v.tenancy_id == t.id) && not (is_void v.status)) db.invoices)

abbrev due_if : List PaymentAllocation → ℕ → Invoice → ℕ
due_if allocations k v = if v.tenancy_id == k then due_of allocations v else 0

rows_due :
    (allocations : List PaymentAllocation) (k : ℕ) (vs : List Invoice)
    → sum_of due_of_row (
        select is_unpaid
          (select (λ (r : InvoiceRow). r.0.tenancy_id == k) (map (row_of allocations) vs)))
      ≡ sum_of (due_if allocations k) vs
rows_due allocations k [] = refl
rows_due allocations k (v ∷ vs) = ground (arith, rows_due allocations k vs)

listed_due :
    (allocations : List PaymentAllocation) (ids : List ℕ) (k : ℕ) (vs : List Invoice)
    → any (λ j. j == k) ids ≡ true
    → sum_of
        (due_if allocations k)
        (select (λ v. any (λ j. j == v.tenancy_id) ids && not (is_void v.status)) vs)
      ≡ sum_of (due_of allocations) (select (λ v. (v.tenancy_id == k) && not (is_void v.status)) vs)
listed_due allocations ids k [] h = refl
listed_due allocations ids k (v ∷ vs) h =
    let rest = listed_due allocations ids k vs h in
    elim (Bool-cases (v.tenancy_id == k)) [
      | inl here ↦
          let found : any (λ j. j == v.tenancy_id) ids ≡ true =
            rw ((==_iff v.tenancy_id k).0 here) h in
          elim (Bool-cases (not (is_void v.status))) [
            | inl live ↦ rw (found, live, here) (ap (λ n. due_of allocations v + n) rest)
            | inr void ↦ rw (found, void, here) rest
          ]
      | inr other ↦ elim (Bool-cases (any (λ j. j == v.tenancy_id) ids && not (is_void v.status))) [
        | inl listed ↦ rw (listed, other) (omega (arith, rest))
        | inr unlisted ↦ rw (unlisted, other) rest
      ]
    ]

or_true : (b : Bool) → (b || true) ≡ true
or_true true = refl
or_true false = refl

sum_of-insert_dues :
    (f : TenantDues → ℕ) (a : TenantDues) (bs : List TenantDues)
    → sum_of f (insert_dues a bs) ≡ f a + sum_of f bs
unfolding insert_dues
sum_of-insert_dues f a [] = refl
sum_of-insert_dues f a (b ∷ bs) = elim (Bool-cases (more_pressing b a)) [
  | inl after ↦ rw after (omega (arith, sum_of-insert_dues f a bs))
  | inr before ↦ rw before refl
]

sum_of-sort_dues :
    (f : TenantDues → ℕ) (bs : List TenantDues) → sum_of f (sort_dues bs) ≡ sum_of f bs
unfolding sort_dues
sum_of-sort_dues f [] = refl
sum_of-sort_dues f (b ∷ bs) =
    sum_of-insert_dues f b (sort_dues bs) ∙ ap (λ n. f b + n) (sum_of-sort_dues f bs)

rows_of_tenancies :
    (now : Date) (db : Db) (rows : List InvoiceRow) (credit : Tenancy → ℕ) (ts : List Tenancy)
    → All
        (λ (t : Tenancy).
          sum_of due_of_row
            (select is_unpaid (select (λ (r : InvoiceRow). r.0.tenancy_id == t.id) rows))
          ≡ owed_by db t)
        ts
    → sum_of
        (λ (d : TenantDues). d.outstanding_paise)
        (map
          (λ (t : Tenancy).
            to_dues now t (select (λ (r : InvoiceRow). r.0.tenancy_id == t.id) rows) (credit t))
          ts)
      ≡ sum_of (owed_by db) ts
unfolding to_dues
rows_of_tenancies now db rows credit [] h = refl
rows_of_tenancies now db rows credit (t ∷ ts) h =
    omega (arith, h.0, rows_of_tenancies now db rows credit ts h.1)

each_listed :
    (ts all : List Tenancy)
    → ((k : ℕ)
        → any (λ j. j == k) (map (λ (t : Tenancy). t.id) ts) ≡ true
        → any (λ j. j == k) (map (λ (t : Tenancy). t.id) all) ≡ true)
    → All (λ (t : Tenancy). any (λ j. j == t.id) (map (λ (t' : Tenancy). t'.id) all) ≡ true) ts
each_listed [] all h = tt
each_listed (t ∷ ts) all h = (
  h t.id (rw (==_refl t.id) refl),
  each_listed ts all (λ k there. h k (rw there (or_true (t.id == k)))),
)

none_owed :
    (allocations : List PaymentAllocation) (t : Tenancy) (vs : List Invoice)
    → All (λ v. is_paid v.status ≡ true → due_of allocations v ≡ 0) vs
    → owes vs t ≡ false
    → sum_of
        (due_of allocations)
        (select (λ v. (v.tenancy_id == t.id) && not (is_void v.status)) vs)
      ≡ 0
none_owed allocations t [] paid clear = refl
none_owed allocations t (v ∷ vs) paid clear =
    let rest = none_owed allocations t vs paid.1 (ground arith) in
    elim (Bool-cases ((v.tenancy_id == t.id) && not (is_void v.status))) [
      | inl counts ↦
          let settled : due_of allocations v ≡ 0 = paid.0 (ground arith) in
          rw counts (omega (arith, settled, rest))
      | inr other ↦ rw other rest
    ]

-- The current tenancies and those departed that owe something come to all of them.
departed_or_current :
    (f : Tenancy → ℕ) (here current owing : Tenancy → Bool) (ts : List Tenancy)
    → ((t : Tenancy) → owing t ≡ false → f t ≡ 0)
    → sum_of f (select (λ t. here t && current t) ts)
        + sum_of f (select (λ t. here t && not (current t) && owing t) ts)
      ≡ sum_of f (select here ts)
departed_or_current f here current owing [] clear = refl
departed_or_current f here current owing (t ∷ ts) clear =
    let rest = departed_or_current f here current owing ts clear in
    elim (Bool-cases (here t)) [
      | inr elsewhere ↦ rw elsewhere rest
      | inl at_it ↦ elim (Bool-cases (current t)) [
        | inl lives ↦ rw (at_it, lives) (omega (arith, rest))
        | inr left ↦ elim (Bool-cases (owing t)) [
          | inl owes_it ↦ rw (at_it, left, owes_it) (omega (arith, rest))
          | inr free ↦
              let nothing = clear t free in rw (at_it, left, free) (omega (arith, rest, nothing))
        ]
      ]
    ]

module _ (prisma : Prisma) where
  owed_in_rows :
      (db : Db) (ids : List ℕ) (t : Tenancy)
      → any (λ j. j == t.id) ids ≡ true
      → sum_of due_of_row (
          select is_unpaid (
            select
              (λ (r : InvoiceRow). r.0.tenancy_id == t.id)
              (invoices_for_tenancies prisma ids db)))
        ≡ owed_by db t
  unfolding invoices_for_tenancies
  owed_in_rows db ids t listed =
      rows_due db.payment_allocations t.id _
      ∙ prisma.find_ordered-sum Invoice (λ v. v.due_date)
          (λ v. any (λ j. j == v.tenancy_id) ids && not (is_void v.status)) db.invoices
          (due_if db.payment_allocations t.id)
      ∙ listed_due db.payment_allocations ids t.id db.invoices listed

  listed_dues :
      (now : Date) (property_id : ℕ) (db : Db)
      → sum_of (λ (d : TenantDues). d.outstanding_paise) (dues_of prisma now property_id db)
        ≡ sum_of (owed_by db) (list_tenancies_for_dues prisma property_id db)
  unfolding dues_of
  listed_dues now property_id db =
      let ts = list_tenancies_for_dues prisma property_id db in
      let ids = map (λ (t : Tenancy). t.id) ts in
      sum_of-sort_dues (λ (d : TenantDues). d.outstanding_paise) _
      ∙ rows_of_tenancies now db (invoices_for_tenancies prisma ids db)
          (λ t. unallocated_credit prisma t.id db) ts
          (All-imp _ _ ts (λ t listed. owed_in_rows db ids t listed) (each_listed ts ts (λ k h. h)))

  -- Where nothing is due any more on an invoice that is PAID, what the tenants on the dues page owe, all
  -- told, is what the invoices that are not void still want, over every tenancy of the property,
  -- departed or not.
  pub sum_of-dues_of :
      (now : Date) (property_id : ℕ) (db : Db)
      → All (λ v. is_paid v.status ≡ true → due_of db.payment_allocations v ≡ 0) db.invoices
      → sum_of (λ (d : TenantDues). d.outstanding_paise) (dues_of prisma now property_id db)
        ≡ sum_of (owed_by db) (select (λ t. t.property_id == property_id) db.tenancies)
  unfolding list_tenancies_for_dues list_billable_tenancies
  sum_of-dues_of now property_id db paid =
      let here : Tenancy → Bool = λ t. t.property_id == property_id in
      let current : Tenancy → Bool = λ t. is_current t.status in
      let first = prisma.find_many-eq Tenancy (λ t. here t && current t) db.tenancies in
      let second =
        prisma.find_many-eq Tenancy (λ t. here t && not (current t) && owes db.invoices t)
          db.tenancies in
      listed_dues now property_id db
      ∙ sum_of-append (owed_by db) (list_billable_tenancies prisma property_id db) _
      ∙ (rw (first, second)
          (departed_or_current (owed_by db) here current (owes db.invoices) db.tenancies
            (λ t clear. none_owed db.payment_allocations t db.invoices paid clear)))

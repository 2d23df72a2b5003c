-- ===== src/Billing/Total.antt =====
-- `recordPayment` does not fail where the rows that it names are there.
use rookopg.Prelude.{
  ℕ, ◌-◌, ◌≤◌, ◌≡◌, refl, ◌∙◌, inl, inr, Bool, true, false, List, [], ◌∷◌, ◌==◌, any, arith, leb,
  map, select, All, All-imp, All-into, All-All, ==_refl, Bool-cases, sum_of, one_if,
}
use rookopg.Errors.{ok}
use rookopg.Database.{Invoice, PaymentAllocation, Db}
use rookopg.Database.Client.{Prisma, changed}
use rookopg.Billing.Repository.{
  PaymentInput, Receipt, OpenInvoice, settle_each, record_payment, open_invoices, with_payment,
  same_pair, allocation, is_settleable, with_paid, references,
}
use rookopg.Billing.Loop.{applied_to, restatused, settled_by}

-- No id occurs twice.
abbrev pub Distinct : List Invoice → Type 0
Distinct rows = (k : ℕ) → sum_of (λ v. one_if (v.id == k)) rows ≤ 1

abbrev Apart : List OpenInvoice → Type 0
Apart [] = Unit
Apart (i ∷ is) = All (λ j. (i.id == j.id) ≡ false) is × Apart is

abbrev Present : List Invoice → OpenInvoice → Type 0
Present rows i = any (λ v. v.id == i.id) rows ≡ true

abbrev Unpaired : ℕ → List PaymentAllocation → OpenInvoice → Type 0
Unpaired payment_id allocations i = any (same_pair payment_id i.id) allocations ≡ false

here : (k : ℕ) → one_if (k == k) ≡ 1
here k = rw (==_refl k) refl

none_of :
    (k : ℕ) (is : List OpenInvoice)
    → sum_of (λ (j : OpenInvoice). one_if (j.id == k)) is ≡ 0
    → All (λ j. (k == j.id) ≡ false) is
none_of k [] h = tt
none_of k (j ∷ is) h = (ground arith, none_of k is (ground arith))

Apart-of :
    (is : List OpenInvoice)
    → ((k : ℕ) → sum_of (λ (j : OpenInvoice). one_if (j.id == k)) is ≤ 1)
    → Apart is
Apart-of [] h = tt
Apart-of (i ∷ is) h =
    (none_of i.id is (omega (arith, h i.id, here i.id)), Apart-of is (λ k. omega (arith, h k)))

sum_of-with_paid_id :
    (allocations : List PaymentAllocation) (k : ℕ) (vs : List Invoice)
    → sum_of (λ (j : OpenInvoice). one_if (j.id == k)) (map (with_paid allocations) vs)
      ≡ sum_of (λ (v : Invoice). one_if (v.id == k)) vs
sum_of-with_paid_id allocations k [] = refl
sum_of-with_paid_id allocations k (v ∷ vs) = omega (arith, sum_of-with_paid_id allocations k vs)

sum_of-select :
    (f : Invoice → ℕ) (p : Invoice → Bool) (vs : List Invoice)
    → sum_of f (select p vs) ≤ sum_of f vs
sum_of-select f p [] = omega arith
sum_of-select f p (v ∷ vs) = ground (arith, sum_of-select f p vs)

any-changed :
    (k : ℕ) (i : OpenInvoice) (applied : ℕ) (rows : List Invoice)
    → any (λ v. v.id == k) (changed (λ v. v.id == i.id) (restatused i applied) rows)
      ≡ any (λ v. v.id == k) rows
any-changed k i applied [] = refl
any-changed k i applied (v ∷ rows) =
    let rest = any-changed k i applied rows in
    elim (Bool-cases (v.id == i.id)) [
      | inl found ↦ rw (found, rest) refl
      | inr other ↦ rw (other, rest) refl
    ]

any-here :
    (rows all : List Invoice)
    → ((k : ℕ) → any (λ v. v.id == k) rows ≡ true → any (λ v. v.id == k) all ≡ true)
    → All (λ v. any (λ w. w.id == v.id) all ≡ true) rows
any-here [] all h = tt
any-here (v ∷ rows) all h =
    (h v.id (rw (==_refl v.id) refl), any-here rows all (λ k there. h k (ground arith)))

unallocated :
    (payment_id k : ℕ) (allocations : List PaymentAllocation)
    → any (λ a. a.payment_id == payment_id) allocations ≡ false
    → any (same_pair payment_id k) allocations ≡ false
unallocated payment_id k [] h = refl
unallocated payment_id k (a ∷ allocations) h = ground (arith, unallocated payment_id k allocations)

module _ (prisma : Prisma) where
  still_free :
      (payment_id : ℕ) (i : OpenInvoice) (applied : ℕ) (db : Db) (rest : List OpenInvoice)
      → All (λ j. (i.id == j.id) ≡ false) rest
      → All (Unpaired payment_id db.payment_allocations) rest
      → All
          (Unpaired payment_id (settled_by prisma payment_id i applied db).payment_allocations)
          rest
  still_free payment_id i applied db [] apart h = tt
  still_free payment_id i applied db (j ∷ rest) apart h = (
    rw
        (
          prisma.create-eq PaymentAllocation (allocation payment_id i.id applied)
              db.payment_allocations,
          ==_refl payment_id,
          apart.0,
        )
        h.0,
    still_free payment_id i applied db rest apart.1 h.1,
  )

  settle_each_returns :
      (payment_id : ℕ) (is : List OpenInvoice) (remaining : ℕ) (db : Db)
      → All (Present db.invoices) is
      → Apart is
      → All (Unpaired payment_id db.payment_allocations) is
      → (r : (ℕ × List ℕ) × Db) × (settle_each prisma payment_id is remaining db ≡ ok r)
  unfolding settle_each
  settle_each_returns payment_id [] remaining db present apart unpaired =
      (((remaining, []), db), refl)
  settle_each_returns payment_id (i ∷ rest) remaining db present apart unpaired =
      elim (Bool-cases (remaining == 0)) [
        | inl over ↦ (((remaining, []), db), rw over refl)
        | inr more ↦ elim (Bool-cases (leb i.amount_paise i.already_paid)) [
          | inl full ↦
              rw (more, full)
                (settle_each_returns payment_id rest remaining db present.1 apart.1 unpaired.1)
          | inr owing ↦
              let applied = applied_to i remaining in
              let db' = settled_by prisma payment_id i applied db in
              let (r, ran) =
                settle_each_returns payment_id rest (remaining - applied) db'
                  (All-imp (Present db.invoices) (Present db'.invoices) rest
                    (λ j h. any-changed j.id i applied db.invoices ∙ h) present.1)
                  apart.1 (still_free payment_id i applied db rest apart.0 unpaired.1) in
              (
                ((r.0.0, i.id ∷ r.0.1), r.1),
                rw
                    (
                      more,
                      owing,
                      unpaired.0,
                      prisma.update_found Invoice (λ v. v.id == i.id) (restatused i applied)
                          db.invoices present.0,
                      ran,
                    )
                    refl,
              )
        ]
      ]

  open_invoices-Apart :
      (input : PaymentInput) (db : Db)
      → Distinct db.invoices
      → Apart (open_invoices prisma input db)
  open_invoices-Apart input db distinct = Apart-of (open_invoices prisma input db) λ k. omega (
    arith,
    distinct k,
    sum_of-with_paid_id db.payment_allocations k
        (prisma.find_ordered Invoice (λ v. v.due_date) (is_settleable input) db.invoices),
    prisma.find_ordered-sum Invoice (λ v. v.due_date) (is_settleable input) db.invoices
        (λ v. one_if (v.id == k)),
    sum_of-select (λ v. one_if (v.id == k)) (is_settleable input) db.invoices,
  )

  over_open :
      (Q : OpenInvoice → Type 0) (P : Invoice → Type 0) (input : PaymentInput) (db : Db)
      → ((v : Invoice) → P v → Q (with_paid db.payment_allocations v))
      → All P db.invoices
      → All Q (open_invoices prisma input db)
  over_open Q P input db k h =
      All-into P Q (with_paid db.payment_allocations)
        (prisma.find_ordered Invoice (λ v. v.due_date) (is_settleable input) db.invoices) k
        (prisma.find_ordered-All Invoice (λ v. v.due_date) (is_settleable input) P db.invoices h)

  -- Where the organisation, the property, the tenancy, the tenant and the recorder are there, the
  -- amount is at most 2147483647 paise, no two invoices have the same id, and no allocation names the
  -- next id yet, recording a payment succeeds.
  pub record_payment_returns :
      (input : PaymentInput) (db : Db)
      → input.amount_paise ≤ 2147483647
      → references prisma input db ≡ true
      → Distinct db.invoices
      → any (λ a. a.payment_id == db.next_id) db.payment_allocations ≡ false
      → (r : Receipt × Db) × (record_payment prisma input db ≡ ok r)
  unfolding record_payment
  record_payment_returns input db small referred distinct fresh =
      let held : leb input.amount_paise 2147483647 ≡ true = ground arith in
      let db1 = with_payment prisma input db in
      let (r, ran) =
        settle_each_returns db.next_id (open_invoices prisma input db1) input.amount_paise db1
          (over_open (Present db.invoices) (λ v. any (λ w. w.id == v.id) db.invoices ≡ true) input
            db1 (λ v h. h) (any-here db.invoices db.invoices (λ k h. h)))
          (open_invoices-Apart input db1 distinct)
          (over_open (Unpaired db.next_id db.payment_allocations) (λ v. Unit) input db1
            (λ v h. unallocated db.next_id v.id db.payment_allocations fresh)
            (All-All (λ v. Unit) db.invoices (λ v. tt))) in
      (
        (
          record {
            payment_id = db.next_id;
            allocated_paise = input.amount_paise - r.0.0;
            touched_invoice_ids = r.0.1;
          },
          r.1,
        ),
        rw (held, referred, ran) refl,
      )

-- ===== src/Billing/Loop.antt =====
-- The loop of `recordPayment`, turn by turn.
use rookopg.Prelude.{
  ℕ, ◌-◌, ◌≤◌, ◌<◌, ◌≡◌, sym, ap, ◌⊎◌, inl, inr, false, not, List, [], ◌∷◌, ◌==◌, any, arith, min,
  leb, leb→le, ==_iff, Bool-cases, sum_of,
}
use rookopg.Errors.{ok, require, >>=-ok, unique_violation}
use rookopg.Database.{Invoice, PaymentAllocation, Db}
use rookopg.Database.Client.{Prisma, changed, update_ok}
use rookopg.Billing.Repository.{
  OpenInvoice, outstanding, settle_each, same_pair, allocation, settled_status,
}

-- What a turn of the loop applies to an invoice.
abbrev pub applied_to : OpenInvoice → ℕ → ℕ
applied_to i remaining = min (outstanding i) remaining

abbrev pub restatused : OpenInvoice → ℕ → Invoice → Invoice
restatused i applied v = record v { status = settled_status i applied }

module _ (prisma : Prisma) (payment_id : ℕ) where
  -- The database after a turn that settles.
  abbrev pub settled_by : OpenInvoice → ℕ → Db → Db
  settled_by i applied db = record db {
    payment_allocations =
        prisma.create PaymentAllocation (allocation payment_id i.id applied) db.payment_allocations;
    invoices = changed (λ v. v.id == i.id) (restatused i applied) db.invoices;
  }

  abbrev turned : OpenInvoice → ℕ → List Invoice → Db → Db
  turned i applied invoices db = record db {
    payment_allocations =
        prisma.create PaymentAllocation (allocation payment_id i.id applied) db.payment_allocations;
    invoices = invoices;
  }

  -- A turn ends the loop, skips an invoice, or settles it and goes on.
  abbrev pub Turn : OpenInvoice → List OpenInvoice → ℕ → Db → (ℕ × List ℕ) → Db → Type 0
  Turn i rest remaining db out db' =
      ((remaining ≡ 0) × (out ≡ (remaining, [])) × (db' ≡ db))
      ⊎ (((i.amount_paise ≤ i.already_paid)
            × (settle_each prisma payment_id rest remaining db ≡ ok (out, db')))
          ⊎ ((0 < remaining)
              × (i.already_paid < i.amount_paise)
              × (any (same_pair payment_id i.id) db.payment_allocations ≡ false)
              × (out' : ℕ × List ℕ) × (settle_each prisma payment_id rest
                    (remaining - applied_to i remaining) (settled_by i (applied_to i remaining) db)
                  ≡ ok (out', db'))
              × (out ≡ (out'.0, i.id ∷ out'.1))))

  abbrev touching : ℕ → (ℕ × List ℕ) × Db → (ℕ × List ℕ) × Db
  touching id done = ((done.0.0, id ∷ done.0.1), done.1)

  rest_ran :
      (i : OpenInvoice) (rest : List OpenInvoice) (remaining : ℕ) (db : Db) (out : ℕ × List ℕ)
      (db' : Db) (invoices : List Invoice) (done : (ℕ × List ℕ) × Db)
      → invoices ≡ changed (λ v. v.id == i.id) (restatused i (applied_to i remaining)) db.invoices
      → settle_each prisma payment_id rest
          (remaining - applied_to i remaining)
          (turned i (applied_to i remaining) invoices db)
        ≡ ok done
      → ok (touching i.id done) ≡ ok (out, db')
      → settle_each prisma payment_id rest
          (remaining - applied_to i remaining)
          (settled_by i (applied_to i remaining) db)
        ≡ ok (done.0, db')
  rest_ran i rest remaining db out db' invoices done same ran ends =
      let same_db : done.1 ≡ db' = ground arith in rw (sym same_db) (rw (sym same) ran)

  loop_round :
      (i : OpenInvoice) (rest : List OpenInvoice) (remaining : ℕ) (db : Db) (out : ℕ × List ℕ)
      (db' : Db)
      → (remaining == 0) ≡ false
      → leb i.amount_paise i.already_paid ≡ false
      → settle_each prisma payment_id (i ∷ rest) remaining db ≡ ok (out, db')
      → Turn i rest remaining db out db'
  unfolding settle_each
  loop_round i rest remaining db out db' more owing ran =
      let applied = applied_to i remaining in
      let (_, free, updated) =
        >>=-ok
          {m = require (not (any (same_pair payment_id i.id) db.payment_allocations))
            unique_violation}
          (rw (more, owing) at ran) in
      let (invoices, rows, looped) =
        >>=-ok {m = prisma.update Invoice (λ v. v.id == i.id) (restatused i applied) db.invoices}
          updated in
      let (done, more_ran, last) =
        >>=-ok
          {m = settle_each prisma payment_id rest (remaining - applied)
            (turned i applied invoices db)}
          looped in
      let same = update_ok prisma (λ v. v.id == i.id) (restatused i applied) db.invoices rows in
      let ends : ok (touching i.id done) ≡ ok (out, db') = last in
      inr (
        inr (
          ground arith,
          ground arith,
          ground arith,
          done.0,
          rest_ran i rest remaining db out db' invoices done same more_ran ends,
          ground arith,
        ))

  pub settle_each-Turn :
      (i : OpenInvoice) (rest : List OpenInvoice) (remaining : ℕ) (db : Db) (out : ℕ × List ℕ)
      (db' : Db)
      → settle_each prisma payment_id (i ∷ rest) remaining db ≡ ok (out, db')
      → Turn i rest remaining db out db'
  unfolding settle_each
  settle_each-Turn i rest remaining db out db' ran = elim (Bool-cases (remaining == 0)) [
    | inl over ↦ inl ((==_iff remaining 0).0 over, ground arith, ground arith)
    | inr more ↦ elim (Bool-cases (leb i.amount_paise i.already_paid)) [
      | inl full ↦ inr (inl (leb→le i.amount_paise i.already_paid full, ground arith))
      | inr owing ↦ loop_round i rest remaining db out db' more owing ran
    ]
  ]

  pub settle_none :
      (remaining : ℕ) (db : Db) (out : ℕ × List ℕ) (db' : Db)
      → settle_each prisma payment_id [] remaining db ≡ ok (out, db')
      → (out ≡ (remaining, [])) × (db' ≡ db)
  unfolding settle_each
  settle_none remaining db out db' ran = ground arith

  -- The loop uses the payment up, or settles all that is outstanding.
  pub settle_each_left :
      (is : List OpenInvoice) (remaining : ℕ) (db : Db) (out : ℕ × List ℕ) (db' : Db)
      → settle_each prisma payment_id is remaining db ≡ ok (out, db')
      → out.0 ≡ remaining - sum_of outstanding is
  settle_each_left [] remaining db out db' ran =
      omega (arith, ap (λ o. o.0) (settle_none remaining db out db' ran).0)
  settle_each_left (i ∷ rest) remaining db out db' ran =
      elim (settle_each-Turn i rest remaining db out db' ran) [
        | inl (over, left, same) ↦ ground arith
        | inr (inl (full, more)) ↦ omega (arith, settle_each_left rest remaining db out db' more)
        | inr (inr (some_left, owing, unpaired, out', more, out_eq)) ↦ omega (
          arith,
          settle_each_left rest (remaining - applied_to i remaining)
              (settled_by i (applied_to i remaining) db) out' db' more,
          ap (λ o. o.0) out_eq,
        )
      ]

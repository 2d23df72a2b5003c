-- ===== src/Billing/Ledger.antt =====
-- What the allocations to an invoice add up to: `recordPayment` keeps the books balanced.
use rookopg.Prelude.{
  ℕ, ◌+◌, ◌-◌, ◌≤◌, ◌<◌, ◌≡◌, refl, sym, ap, ◌∙◌, ◌⊎◌, inl, inr, true, false, List, [], ◌∷◌, ◌==◌,
  any, arith, All, All-imp, All-into, ==_iff, ==_refl, if◌then◌else◌, Bool-cases,
}
use rookopg.Errors.{ok}
use rookopg.Database.{Invoice, PaymentAllocation, Db}
use rookopg.Database.Client.{Prisma}
use rookopg.Billing.Repository.{
  PaymentInput, Receipt, OpenInvoice, settle_each, record_payment, open_invoices, with_payment,
  same_pair, allocation, settled_status, paid_of, is_settleable, with_paid, is_paid,
}
use rookopg.Billing.Amounts.{run_left}
use rookopg.Billing.Loop.{applied_to, restatused, settled_by, settle_each-Turn, settle_none}

-- Every allocation goes to an invoice, and an invoice holds no more than its amount; one that is
-- PAID holds all of it. `amount_of` gives the amount by the id.
abbrev pub Settled : (ℕ → ℕ) → List PaymentAllocation → Invoice → Type 0
Settled amount_of allocations v =
    (v.amount_paise ≡ amount_of v.id)
    × (paid_of v.id allocations ≤ v.amount_paise)
    × ((is_paid v.status ≡ false) ⊎ (paid_of v.id allocations ≡ v.amount_paise))

abbrev pub Balanced : (ℕ → ℕ) → Db → Type 0
Balanced amount_of db = All (Settled amount_of db.payment_allocations) db.invoices

same_id : (k j : ℕ) → k ≡ j → (j == k) ≡ true
same_id k j h = ground arith

other_id : (k j : ℕ) → (k == j) ≡ false → (j == k) ≡ false
other_id k j h = ground arith

-- What the loop read of an invoice is still so, or the payment has gone to it already.
abbrev Current : (ℕ → ℕ) → ℕ → List PaymentAllocation → OpenInvoice → Type 0
Current amount_of payment_id allocations i =
    (i.amount_paise ≡ amount_of i.id)
    × ((any (same_pair payment_id i.id) allocations ≡ true)
        ⊎ (i.already_paid ≡ paid_of i.id allocations))

module _ (prisma : Prisma) where
  module _ (payment_id : ℕ) where
    paid_of-settled_by :
        (k : ℕ) (i : OpenInvoice) (applied : ℕ) (db : Db)
        → paid_of k (settled_by prisma payment_id i applied db).payment_allocations
          ≡ (if i.id == k then applied else 0) + paid_of k db.payment_allocations
    paid_of-settled_by k i applied db =
        rw
          (prisma.create-eq PaymentAllocation (allocation payment_id i.id applied)
            db.payment_allocations)
          refl

    settled_status_lem :
        (i : OpenInvoice) (applied : ℕ)
        → (is_paid (settled_status i applied) ≡ false) ⊎ (i.amount_paise ≤ i.already_paid + applied)
    settled_status_lem i applied = ground arith

    Settled-settled_by :
        (amount_of : ℕ → ℕ) (i : OpenInvoice) (remaining : ℕ) (db : Db) (v : Invoice)
        → i.already_paid < i.amount_paise
        → i.amount_paise ≡ amount_of i.id
        → i.already_paid ≡ paid_of i.id db.payment_allocations
        → Settled amount_of db.payment_allocations v
        → Settled amount_of
            (settled_by prisma payment_id i (applied_to i remaining) db).payment_allocations
            (if v.id == i.id then restatused i (applied_to i remaining) v else v)
    Settled-settled_by amount_of i remaining db v owing amount current h =
        elim (Bool-cases (v.id == i.id)) [
          | inl here ↦
              let same = (==_iff v.id i.id).0 here in
              let applied = applied_to i remaining in
              let total : paid_of v.id
                    (settled_by prisma payment_id i applied db).payment_allocations
                  ≡ applied + i.already_paid =
                omega (
                  arith,
                  current,
                  ap (λ k. paid_of k db.payment_allocations) same,
                  paid_of-settled_by v.id i applied db,
                  ap (λ b. if b then applied else 0) (same_id v.id i.id same),
                ) in
              let amounts : v.amount_paise ≡ i.amount_paise =
                h.0 ∙ ap amount_of same ∙ sym amount in
              rw here (
                h.0,
                omega (arith, total, amounts),
                elim (settled_status_lem i applied) [
                  | inl unpaid ↦ inl unpaid
                  | inr full ↦ inr (omega (arith, total, amounts, full))
                ],
              )
          | inr there ↦
              let total : paid_of v.id
                    (settled_by prisma payment_id i (applied_to i remaining) db).payment_allocations
                  ≡ paid_of v.id db.payment_allocations =
                omega (
                  arith,
                  paid_of-settled_by v.id i (applied_to i remaining) db,
                  ap (λ b. if b then applied_to i remaining else 0) (other_id v.id i.id there),
                ) in
              rw (there, total) h
        ]

    Current-settled_by :
        (amount_of : ℕ → ℕ) (i : OpenInvoice) (applied : ℕ) (db : Db) (j : OpenInvoice)
        → Current amount_of payment_id db.payment_allocations j
        → Current amount_of payment_id
            (settled_by prisma payment_id i applied db).payment_allocations
            j
    Current-settled_by amount_of i applied db j h = (
      h.0,
      rw
          (
            prisma.create-eq PaymentAllocation (allocation payment_id i.id applied)
                db.payment_allocations,
            ==_refl payment_id,
          )
          (elim (Bool-cases (i.id == j.id)) [
            | inl here ↦ inl (rw here refl)
            | inr there ↦
                rw there (elim h.1 [ inl gone ↦ inl gone | inr now ↦ inr (omega (arith, now)) ])
          ]),
    )

    -- The loop keeps the books balanced.
    settle_each-Balanced :
        (amount_of : ℕ → ℕ) (is : List OpenInvoice) (remaining : ℕ) (db : Db) (out : ℕ × List ℕ)
        (db' : Db)
        → settle_each prisma payment_id is remaining db ≡ ok (out, db')
        → All (Current amount_of payment_id db.payment_allocations) is
        → Balanced amount_of db
        → Balanced amount_of db'
    settle_each-Balanced amount_of [] remaining db out db' ran current h =
        rw ((settle_none prisma payment_id remaining db out db' ran).1) h
    settle_each-Balanced amount_of (i ∷ rest) remaining db out db' ran current h =
        elim (settle_each-Turn prisma payment_id i rest remaining db out db' ran) [
          | inl (over, left, same) ↦ rw same h
          | inr (inl (full, more)) ↦
              settle_each-Balanced amount_of rest remaining db out db' more current.1 h
          | inr (inr (some_left, owing, unpaired, out', more, out_eq)) ↦
              let applied = applied_to i remaining in
              let now : i.already_paid ≡ paid_of i.id db.payment_allocations = ground arith in
              settle_each-Balanced amount_of rest (remaining - applied)
                (settled_by prisma payment_id i applied db) out' db' more
                (All-imp (Current amount_of payment_id db.payment_allocations)
                  (Current amount_of payment_id
                    (settled_by prisma payment_id i applied db).payment_allocations)
                  rest (Current-settled_by amount_of i applied db) current.1)
                (All-into (Settled amount_of db.payment_allocations)
                  (Settled amount_of
                    (settled_by prisma payment_id i applied db).payment_allocations)
                  (λ v. if v.id == i.id then restatused i applied v else v) db.invoices
                  (λ v. Settled-settled_by amount_of i remaining db v owing current.0.0 now) h)
        ]

  with_payment-Current :
      (amount_of : ℕ → ℕ) (input : PaymentInput) (db : Db)
      → Balanced amount_of db
      → All
          (Current amount_of db.next_id db.payment_allocations)
          (open_invoices prisma input (with_payment prisma input db))
  with_payment-Current amount_of input db h =
      All-into (Settled amount_of db.payment_allocations)
        (Current amount_of db.next_id db.payment_allocations) (with_paid db.payment_allocations)
        (prisma.find_ordered Invoice (λ v. v.due_date) (is_settleable input) db.invoices)
        (λ v k. (k.0, inr refl))
        (prisma.find_ordered-All Invoice (λ v. v.due_date) (is_settleable input)
          (Settled amount_of db.payment_allocations) db.invoices h)

  -- Recording a payment keeps the books balanced: no invoice is paid more than its amount, whatever
  -- the payment's, and one that is PAID is paid in full.
  pub record_payment-Balanced :
      (amount_of : ℕ → ℕ) (input : PaymentInput) (db db' : Db) (receipt : Receipt)
      → Balanced amount_of db
      → record_payment prisma input db ≡ ok (receipt, db')
      → Balanced amount_of db'
  record_payment-Balanced amount_of input db db' receipt h ran =
      let (out, looped, same_id, allocated) = run_left prisma input db db' receipt ran in
      settle_each-Balanced db.next_id amount_of
        (open_invoices prisma input (with_payment prisma input db)) input.amount_paise
        (with_payment prisma input db) out db' looped (with_payment-Current amount_of input db h) h

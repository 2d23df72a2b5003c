-- ===== src/Billing/Amounts.antt =====
-- How much of a payment `recordPayment` allocates.
use rookopg.Prelude.{
  ℕ, ◌+◌, ◌-◌, ◌≤◌, ◌≡◌, refl, sym, ap, inl, inr, List, [], ◌∷◌, arith, min, map, select, ==_refl,
  sum_of, leb,
}
use rookopg.Errors.{ok, >>=-ok, require, value_out_of_range, foreign_key_violation}
use rookopg.Database.{Invoice, PaymentAllocation, Db}
use rookopg.Database.Client.{Prisma}
use rookopg.Billing.Repository.{
  PaymentInput, Receipt, OpenInvoice, outstanding, settle_each, record_payment, open_invoices,
  with_payment, allocation, paid_of, allocated_of, is_settleable, with_paid, references, max_int,
}
use rookopg.Billing.Loop.{applied_to, settled_by, settle_each-Turn, settle_each_left, settle_none}

-- What an invoice still wants.
abbrev pub due_of : List PaymentAllocation → Invoice → ℕ
due_of allocations v = v.amount_paise - paid_of v.id allocations

-- What the open invoices that a payment may go to still want.
abbrev pub total_due : PaymentInput → Db → ℕ
total_due input db =
    sum_of (due_of db.payment_allocations) (select (is_settleable input) db.invoices)

sum_of-with_paid :
    (allocations : List PaymentAllocation) (vs : List Invoice)
    → sum_of outstanding (map (with_paid allocations) vs) ≡ sum_of (due_of allocations) vs
sum_of-with_paid allocations [] = refl
sum_of-with_paid allocations (v ∷ vs) = omega (arith, sum_of-with_paid allocations vs)

module _ (prisma : Prisma) where
  abbrev posted : PaymentInput → Db → (ℕ × List ℕ) × Db → Receipt × Db
  posted input db done = (
    record {
      payment_id = db.next_id;
      allocated_paise = input.amount_paise - done.0.0;
      touched_invoice_ids = done.0.1;
    },
    done.1,
  )

  pub run_left :
      (input : PaymentInput) (db db' : Db) (receipt : Receipt)
      → record_payment prisma input db ≡ ok (receipt, db')
      → (out : ℕ × List ℕ) × (settle_each prisma db.next_id
            (open_invoices prisma input (with_payment prisma input db))
            input.amount_paise
            (with_payment prisma input db)
          ≡ ok (out, db'))
        × (receipt.payment_id ≡ db.next_id)
        × (receipt.allocated_paise ≡ input.amount_paise - out.0)
  unfolding record_payment
  run_left input db db' receipt ran =
      let (_, _, referred) =
        >>=-ok {m = require (leb input.amount_paise max_int) value_out_of_range} ran in
      let (_, _, looping) =
        >>=-ok {m = require (references prisma input db) foreign_key_violation} referred in
      let (done, looped, last) =
        >>=-ok
          {m = settle_each prisma db.next_id
            (open_invoices prisma input (with_payment prisma input db)) input.amount_paise
            (with_payment prisma input db)}
          looping in
      let ends : ok (posted input db done) ≡ ok (receipt, db') = last in
      let same_db : done.1 ≡ db' = ground arith in
      (done.0, rw (sym same_db) looped, ground arith, ground arith)

  -- A payment is allocated up to what the open invoices that it may go to still want, and no further.
  pub record_payment-total_due :
      (input : PaymentInput) (db db' : Db) (receipt : Receipt)
      → record_payment prisma input db ≡ ok (receipt, db')
      → receipt.allocated_paise ≡ min input.amount_paise (total_due input db)
  record_payment-total_due input db db' receipt ran =
      let (out, looped, same_id, allocated) = run_left input db db' receipt ran in
      omega (
        arith,
        allocated,
        settle_each_left prisma db.next_id
            (open_invoices prisma input (with_payment prisma input db)) input.amount_paise
            (with_payment prisma input db) out db' looped,
        sum_of-with_paid db.payment_allocations
            (prisma.find_ordered Invoice (λ v. v.due_date) (is_settleable input) db.invoices),
        prisma.find_ordered-sum Invoice (λ v. v.due_date) (is_settleable input) db.invoices
            (due_of db.payment_allocations),
      )

  module _ (payment_id : ℕ) where
    allocated_of-settled_by :
        (i : OpenInvoice) (applied : ℕ) (db : Db)
        → allocated_of payment_id (settled_by prisma payment_id i applied db).payment_allocations
          ≡ applied + allocated_of payment_id db.payment_allocations
    allocated_of-settled_by i applied db =
        rw
          (
            prisma.create-eq PaymentAllocation (allocation payment_id i.id applied)
                db.payment_allocations,
            ==_refl payment_id,
          )
          refl

    -- What the loop gives out, it takes from the payment.
    settle_each-allocated :
        (is : List OpenInvoice) (remaining : ℕ) (db : Db) (out : ℕ × List ℕ) (db' : Db)
        → settle_each prisma payment_id is remaining db ≡ ok (out, db')
        → (allocated_of payment_id db'.payment_allocations + out.0
            ≡ allocated_of payment_id db.payment_allocations + remaining)
    settle_each-allocated [] remaining db out db' ran =
        let (left, same) = settle_none prisma payment_id remaining db out db' ran in
        rw (left, same) refl
    settle_each-allocated (i ∷ rest) remaining db out db' ran =
        elim (settle_each-Turn prisma payment_id i rest remaining db out db' ran) [
          | inl (over, left, same) ↦ rw (left, same) refl
          | inr (inl (full, more)) ↦ settle_each-allocated rest remaining db out db' more
          | inr (inr (some_left, owing, unpaired, out', more, out_eq)) ↦
              let db'' = settled_by prisma payment_id i (applied_to i remaining) db in
              omega (
                arith,
                ap (λ o. o.0) out_eq,
                allocated_of-settled_by i (applied_to i remaining) db,
                settle_each-allocated rest (remaining - applied_to i remaining) db'' out' db' more,
              )
        ]

  -- If no allocation names the next id yet, the allocations of the new payment add up to what its
  -- receipt says was allocated, and that is no more than the payment.
  record_payment-allocated :
      (input : PaymentInput) (db db' : Db) (receipt : Receipt)
      → allocated_of db.next_id db.payment_allocations ≡ 0
      → record_payment prisma input db ≡ ok (receipt, db')
      → (allocated_of receipt.payment_id db'.payment_allocations ≡ receipt.allocated_paise)
        × (receipt.allocated_paise ≤ input.amount_paise)
  record_payment-allocated input db db' receipt fresh ran =
      let (out, looped, same_id, allocated) = run_left input db db' receipt ran in
      let given =
        settle_each-allocated db.next_id (open_invoices prisma input (with_payment prisma input db))
          input.amount_paise (with_payment prisma input db) out db' looped in
      rw same_id (omega (arith, given, fresh, allocated), omega (arith, allocated))

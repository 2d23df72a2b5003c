-- ===== src/Booking/Confirm.antt =====
-- `onConfirmed`: the tenancy and the pass that a confirmed booking gets, once.
use rookopg.Prelude.{
  ℕ, ◌≤◌, ◌≡◌, refl, ◌∙◌, sym, Bool, true, false, Option, some, none, List, [], ◌∷◌, any, arith,
  if◌then◌else◌, ==_refl, Bool-cases, inl, inr, sum_of, is_some, All,
}
use rookopg.Calendar.{Date}
use rookopg.Errors.{ok, >>=-ok}
use rookopg.Database.{Booking, BookingStatus, confirmed, Tenancy, Payment, Db, is_id}
use rookopg.Database.Client.{Prisma, changed, update_ok, find_first-found}
use rookopg.Booking.Repository.{
  NewPass, PaidInput, on_confirmed, confirm_booking, find_by_id, approve, approved, mark_paid,
  record_capture, has_id, paid_booking, opened_tenancy, captured_payment,
}

-- The rows of a booking have a status.
abbrev pub HasStatus : ℕ → BookingStatus → List Booking → Type 0
HasStatus booking_id status rows = All (λ b. has_id booking_id b ≡ true → b.status ≡ status) rows

-- What a change sets on the rows that it is made to, they have after it.
pub changed-HasStatus :
    (booking_id : ℕ) (status : BookingStatus) (f : Booking → Booking) (rows : List Booking)
    → ((b : Booking) → (f b).status ≡ status)
    → HasStatus booking_id status (changed (has_id booking_id) f rows)
changed-HasStatus booking_id status f [] sets = tt
changed-HasStatus booking_id status f (b ∷ rows) sets = elim (Bool-cases (has_id booking_id b)) [
  | inl here ↦ rw here (λ same. sets b, changed-HasStatus booking_id status f rows sets)
  | inr other ↦ rw other (
    λ same. absurd (let no : true ≡ false = sym same ∙ other in ground arith),
    changed-HasStatus booking_id status f rows sets,
  )
]

abbrev pub tenancies_of : ℕ → List Tenancy → ℕ
tenancies_of booking_id = sum_of λ t. if is_id booking_id t.booking_id then 1 else 0

tenancies_of-none :
    (booking_id : ℕ) (rows : List Tenancy)
    → any (λ t. is_id booking_id t.booking_id) rows ≡ false
    → tenancies_of booking_id rows ≡ 0
tenancies_of-none booking_id [] h = refl
tenancies_of-none booking_id (t ∷ rows) h = ground (arith, tenancies_of-none booking_id rows)

tenancies_of-any :
    (booking_id : ℕ) (rows : List Tenancy)
    → any (λ t. is_id booking_id t.booking_id) rows ≡ true
    → 1 ≤ tenancies_of booking_id rows
tenancies_of-any booking_id [] h = ground arith
tenancies_of-any booking_id (t ∷ rows) h = ground (arith, tenancies_of-any booking_id rows)

module _ (prisma : Prisma) where
  abbrev tenancy_of : ℕ → Db → Option Tenancy
  tenancy_of booking_id db =
      prisma.find_first Tenancy (λ t. is_id booking_id t.booking_id) db.tenancies

  confirm_booking-sole :
      (now : Date) (booking_id : ℕ) (pass : NewPass) (found : Option Booking)
      (held : Option Tenancy) (db : Db) {db' : Db}
      → find_by_id prisma booking_id db ≡ found
      → tenancy_of booking_id db ≡ held
      → tenancies_of booking_id db.tenancies ≤ 1
      → confirm_booking prisma now pass found (is_some held) db ≡ ok db'
      → tenancies_of booking_id db'.tenancies ≡ 1
  unfolding confirm_booking find_by_id
  confirm_booking-sole now booking_id pass none held db found_eq held_eq h ran = ground arith
  confirm_booking-sole now booking_id pass (some b) (some t) db found_eq held_eq h ran =
      elim (Bool-cases (any (λ t. is_id booking_id t.booking_id) db.tenancies)) [
        | inl some_there ↦ ground (arith, tenancies_of-any booking_id db.tenancies some_there)
        | inr none_there ↦ ground (
          arith,
          prisma.find_first-any Tenancy (λ t. is_id booking_id t.booking_id) db.tenancies
              none_there,
        )
      ]
  confirm_booking-sole now booking_id pass (some b) none db {db'} found_eq held_eq h ran =
      let same_id = prisma.find_first-some Booking (has_id booking_id) db.bookings b found_eq in
      let no_tenancy = tenancies_of-none booking_id db.tenancies (
        prisma.find_first-none Tenancy (λ t. is_id booking_id t.booking_id) db.tenancies held_eq) in
      let rows : db'.tenancies ≡ opened_tenancy db.next_id b ∷ db.tenancies =
        ground (arith, prisma.create-eq Tenancy (opened_tenancy db.next_id b) db.tenancies) in
      rw rows (ground arith)

  -- Confirming leaves the booking with exactly one tenancy, if it had at most one before.
  on_confirmed-sole :
      (now : Date) (booking_id : ℕ) (pass : NewPass) (db : Db) {db' : Db}
      → tenancies_of booking_id db.tenancies ≤ 1
      → on_confirmed prisma now booking_id pass db ≡ ok db'
      → tenancies_of booking_id db'.tenancies ≡ 1
  unfolding on_confirmed
  on_confirmed-sole now booking_id pass db h ran =
      confirm_booking-sole now booking_id pass (find_by_id prisma booking_id db)
        (tenancy_of booking_id db) db refl refl h ran

  on_confirmed_bookings :
      (now : Date) (booking_id : ℕ) (pass : NewPass) (db : Db) {db' : Db}
      → on_confirmed prisma now booking_id pass db ≡ ok db'
      → (db'.bookings ≡ db.bookings) × (db'.payments ≡ db.payments)
  unfolding on_confirmed confirm_booking
  on_confirmed_bookings now booking_id pass db h = ground arith

  -- Where the owner's approval commits, the booking's row has the status CONFIRMED, no other booking
  -- changes, and the booking has exactly one tenancy, provided that it had at most one before.
  pub approve_lem :
      (now : Date) (booking_id actor_id : ℕ) (pass : NewPass) (db : Db) {db' : Db}
      → tenancies_of booking_id db.tenancies ≤ 1
      → approve prisma now booking_id actor_id pass db ≡ ok db'
      → (db'.bookings ≡ changed (has_id booking_id) (approved now) db.bookings)
        × HasStatus booking_id confirmed db'.bookings
        × (tenancies_of booking_id db'.tenancies ≡ 1)
  unfolding approve
  approve_lem now booking_id actor_id pass db h ran =
      let (bookings, updated, done) =
        >>=-ok {m = prisma.update Booking (has_id booking_id) (approved now) db.bookings} ran in
      let rows =
        (on_confirmed_bookings now booking_id pass _ done).0
        ∙ update_ok prisma (has_id booking_id) (approved now) db.bookings updated in
      (
        rows,
        rw rows (changed-HasStatus booking_id confirmed (approved now) db.bookings (λ b. refl)),
        on_confirmed-sole now booking_id pass _ h done,
      )

  abbrev pub payment_known : ℕ → Db → Bool
  payment_known payment_id db = any (λ p. is_id payment_id p.gateway_payment_id) db.payments

  record_capture_lem :
      (now : Date) (input : PaidInput) (db : Db) {db' : Db}
      → record_capture prisma now input db ≡ ok db'
      → (db'.bookings ≡ db.bookings)
        × (db'.tenancies ≡ db.tenancies)
        × (payment_known input.gateway_payment_id db' ≡ true)
  unfolding record_capture
  record_capture_lem now input db {db'} h =
      let known : Payment → Bool = λ p. is_id input.gateway_payment_id p.gateway_payment_id in
      elim (Bool-cases (payment_known input.gateway_payment_id db)) [
        | inl there ↦
            let (p, found, same) = find_first-found prisma known db.payments there in ground arith
        | inr absent ↦
            let missing = prisma.find_first-any Payment known db.payments absent in
            let created =
              prisma.create-eq Payment (captured_payment now db.next_id input) db.payments in
            (ground arith, ground arith, ground (arith, ==_refl input.gateway_payment_id))
      ]

  confirmed_if_lem :
      (auto_confirm : Bool) (now : Date) (booking_id : ℕ) (pass : NewPass) (db : Db) {db' : Db}
      → tenancies_of booking_id db.tenancies ≤ 1
      → (if auto_confirm then on_confirmed prisma now booking_id pass db else ok db) ≡ ok db'
      → (db'.bookings ≡ db.bookings)
        × (db'.payments ≡ db.payments)
        × (auto_confirm ≡ true → tenancies_of booking_id db'.tenancies ≡ 1)
  confirmed_if_lem true now booking_id pass db h ran =
      let kept = on_confirmed_bookings now booking_id pass db ran in
      (kept.0, kept.1, λ _. on_confirmed-sole now booking_id pass db h ran)
  confirmed_if_lem false now booking_id pass db h ran =
      (ground arith, ground arith, λ on. ground arith)

  confirmed_if_bookings :
      (auto_confirm : Bool) (now : Date) (booking_id : ℕ) (pass : NewPass) (db : Db) {db' : Db}
      → (if auto_confirm then on_confirmed prisma now booking_id pass db else ok db) ≡ ok db'
      → db'.bookings ≡ db.bookings
  confirmed_if_bookings true now booking_id pass db ran =
      (on_confirmed_bookings now booking_id pass db ran).0
  confirmed_if_bookings false now booking_id pass db ran = ground arith

  pub mark_paid_bookings :
      (now : Date) (input : PaidInput) (db : Db) {db' : Db}
      → mark_paid prisma now input db ≡ ok db'
      → db'.bookings ≡ changed (has_id input.booking_id) (paid_booking now input) db.bookings
  unfolding mark_paid
  mark_paid_bookings now input db {db'} ran =
      let (recorded, captured, updated) = >>=-ok {m = record_capture prisma now input db} ran in
      let (bookings, moved, moved_ran) =
        >>=-ok
          {m = prisma.update Booking (has_id input.booking_id) (paid_booking now input)
            recorded.bookings}
          updated in
      let (done, confirmed_ran, last) = >>=-ok moved_ran in
      let last_bookings : db'.bookings ≡ done.bookings = ground arith in
      rw (sym (record_capture_lem now input db captured).0) (
        last_bookings
        ∙ confirmed_if_bookings input.auto_confirm now input.booking_id input.pass _ confirmed_ran
        ∙ update_ok prisma (has_id input.booking_id) (paid_booking now input) recorded.bookings
            moved)

  -- Where a payment is marked at a property that confirms automatically and that commits, the
  -- booking's row has the status CONFIRMED and no other booking changes, the payment's id is on record, and the
  -- booking has exactly one tenancy, provided that it had at most one before.
  pub mark_paid_lem :
      (now : Date) (input : PaidInput) (db : Db) {db' : Db}
      → tenancies_of input.booking_id db.tenancies ≤ 1
      → input.auto_confirm ≡ true
      → mark_paid prisma now input db ≡ ok db'
      → (db'.bookings ≡ changed (has_id input.booking_id) (paid_booking now input) db.bookings)
        × HasStatus input.booking_id confirmed db'.bookings
        × (payment_known input.gateway_payment_id db' ≡ true)
        × (tenancies_of input.booking_id db'.tenancies ≡ 1)
  unfolding mark_paid
  mark_paid_lem now input db {db'} h on ran =
      let (recorded, captured, updated) = >>=-ok {m = record_capture prisma now input db} ran in
      let (bookings, moved, moved_ran) =
        >>=-ok
          {m = prisma.update Booking (has_id input.booking_id) (paid_booking now input)
            recorded.bookings}
          updated in
      let (done, confirmed_ran, last) = >>=-ok moved_ran in
      let first = record_capture_lem now input db captured in
      let second =
        confirmed_if_lem input.auto_confirm now input.booking_id input.pass _ (rw first.1 h)
          confirmed_ran in
      let last_payments : db'.payments ≡ done.payments = ground arith in
      let last_tenancies : db'.tenancies ≡ done.tenancies = ground arith in
      let payments : db'.payments ≡ recorded.payments = last_payments ∙ second.1 in
      let rows = mark_paid_bookings now input db ran in
      (
        rows,
        rw rows (
            changed-HasStatus input.booking_id confirmed (paid_booking now input) db.bookings
              (λ b. rw on refl)),
        rw payments first.2,
        rw last_tenancies (second.2 on),
      )

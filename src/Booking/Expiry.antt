-- ===== src/Booking/Expiry.antt =====
-- What the sweep over lapsed bookings, `expireLapsed`, leaves behind.
use Prim.Native.String.{String}
use rookopg.Prelude.{
  ℕ, suc, ◌+◌, ◌≤◌, ◌≡◌, refl, sym, ◌∙◌, Bool, true, false, none, List, [], ◌∷◌, any, select,
  length, ==_refl, any-select, All-any, All-selected, All, All-imp, Bool-cases, inl, inr,
  if◌then◌else◌, arith,
}
use rookopg.Calendar.{Date}
use rookopg.Errors.{Result, ok}
use rookopg.Database.{BedAllocation, Booking, BookingStatus, Db, expired, rejected}
use rookopg.Database.Client.{Prisma, changed}
use rookopg.Booking.Repository.{
  release_booking, released_booking, claims, let_go, has_id, fits, has_lapsed, is_pending_payment,
  find_lapsed,
}
use rookopg.Booking.Service.{Settings, expire_each, expire_lapsed}
use rookopg.Booking.Checkout.Steps.{any-changed}

abbrev sweep_status : Bool → BookingStatus
sweep_status hold = if hold then expired else rejected

-- Every row that has lapsed is named in the list.
abbrev IsNamed : Date → List Booking → List Booking → Type 0
IsNamed now named rows = All (λ r. has_lapsed now r ≡ true → any (has_id r.id) named ≡ true) rows

-- Every booking of the list has a row.
abbrev IsPresent : List Booking → List Booking → Type 0
IsPresent named rows = All (λ b. any (has_id b.id) rows ≡ true) named

swept_id :
    (now : Date) (hold : Bool) (reason : String) (b : Booking)
    → (released_booking now (sweep_status hold) reason b).id ≡ b.id
swept_id now true reason b = refl
swept_id now false reason b = refl

swept_over :
    (now : Date) (hold : Bool) (reason : String) (b : Booking)
    → has_lapsed now (released_booking now (sweep_status hold) reason b) ≡ false
swept_over now true reason b = refl
swept_over now false reason b = refl

swept-IsNamed :
    (now : Date) (hold : Bool) (reason : String) (b : Booking) (named rows : List Booking)
    → IsNamed now (b ∷ named) rows
    → IsNamed now named
        (changed (has_id b.id) (released_booking now (sweep_status hold) reason) rows)
swept-IsNamed now hold reason b named [] h = tt
swept-IsNamed now hold reason b named (r ∷ rows) h = elim (Bool-cases (has_id b.id r)) [
  | inl here ↦ rw here (
    λ lapsed. let over = swept_over now hold reason r in ground arith,
    swept-IsNamed now hold reason b named rows h.1,
  )
  | inr other ↦ rw other (
    λ lapsed. let found = h.0 lapsed in ground arith,
    swept-IsNamed now hold reason b named rows h.1,
  )
]

swept-IsPresent :
    (now : Date) (hold : Bool) (reason : String) (k : ℕ) (named rows : List Booking)
    → IsPresent named rows
    → IsPresent named (changed (has_id k) (released_booking now (sweep_status hold) reason) rows)
swept-IsPresent now hold reason k named rows h =
    All-imp _ _ named
      (λ b found.
        any-changed (has_id k) (has_id b.id) (released_booking now (sweep_status hold) reason) rows
          (λ r. rw (swept_id now hold reason r) refl)
        ∙ found)
      h

freed :
    (now : Date) (reason : String) (k : ℕ) (rows : List BedAllocation)
    → any (claims k) (changed (claims k) (let_go now reason) rows) ≡ false
freed now reason k [] = refl
freed now reason k (a ∷ rows) = ground (arith, freed now reason k rows)

still_freed :
    (now : Date) (reason : String) (j k : ℕ) (rows : List BedAllocation)
    → any (claims k) rows ≡ false
    → any (claims k) (changed (claims j) (let_go now reason) rows) ≡ false
still_freed now reason j k [] h = refl
still_freed now reason j k (a ∷ rows) h = ground (arith, still_freed now reason j k rows)

named_free :
    (rows : List BedAllocation) (k : ℕ) (named : List Booking)
    → All (λ b. any (claims b.id) rows ≡ false) named
    → any (has_id k) named ≡ true
    → any (claims k) rows ≡ false
named_free rows k [] free found = ground arith
named_free rows k (b ∷ named) free found = elim (Bool-cases (has_id k b)) [
  | inl here ↦ let same : b.id ≡ k = ground arith in rw same at free.0
  | inr other ↦ named_free rows k named free.1 (rw other at found)
]

reason_fits :
    (hold : Bool)
    → fits 200 (if hold then "Checkout not completed in time" else "Owner did not respond in time")
      ≡ true
reason_fits true = refl
reason_fits false = refl

counted :
    (hold : Bool) (holds approvals n total : ℕ)
    → total ≡ (if hold then holds + 1 else holds) + (if hold then approvals else approvals + 1) + n
    → total ≡ holds + approvals + suc n
counted true holds approvals n total h = omega arith
counted false holds approvals n total h = omega arith

none_over :
    (now : Date) (rows : List Booking) → IsNamed now [] rows → any (has_lapsed now) rows ≡ false
none_over now [] h = refl
none_over now (r ∷ rows) h = elim (Bool-cases (has_lapsed now r)) [
  | inl lapsed ↦ let named = h.0 lapsed in ground arith
  | inr other ↦ rw other (none_over now rows h.1)
]

-- Every row that passes a test is among those that the test selects.
selected-IsNamed :
    (now : Date) (found rows : List Booking)
    → ((q : Booking → Bool) → any q found ≡ any q (select (has_lapsed now) rows))
    → IsNamed now found rows
selected-IsNamed now found rows same =
    All-imp
      (λ r.
        (q : Booking → Bool)
        → q r ≡ true
        → has_lapsed now r ≡ true
        → any q (select (has_lapsed now) rows) ≡ true)
      _ rows (λ r there lapsed. same (has_id r.id) ∙ there (has_id r.id) (==_refl r.id) lapsed)
      (All-selected (has_lapsed now) rows)

selected-IsPresent :
    (now : Date) (found rows : List Booking)
    → ((q : Booking → Bool) → any q found ≡ any q (select (has_lapsed now) rows))
    → IsPresent found rows
selected-IsPresent now found rows same =
    All-imp (λ b. (q : Booking → Bool) → q b ≡ true → any q found ≡ true) _ found
      (λ b there.
        any-select (has_id b.id) (has_lapsed now) rows
          (sym (same (has_id b.id)) ∙ there (has_id b.id) (==_refl b.id)))
      (All-any found)

module _ (prisma : Prisma) where
  released_rows :
      (now : Date) (booking_id : ℕ) (from to : BookingStatus) (reason : String) (db : Db)
      → fits 200 reason ≡ true
      → any (has_id booking_id) db.bookings ≡ true
      → (db' : Db) × (release_booking prisma now booking_id from to reason none db ≡ ok db')
        × (db'.bookings ≡ changed (has_id booking_id) (released_booking now to reason) db.bookings)
        × (db'.allocations ≡ changed (claims booking_id) (let_go now reason) db.allocations)
  unfolding release_booking
  released_rows now booking_id from to reason db short known =
      rw
        (
          short,
          prisma.update_found Booking (has_id booking_id) (released_booking now to reason)
              db.bookings known,
          prisma.update_many-eq BedAllocation (claims booking_id) (let_go now reason)
              db.allocations,
        )
        (_, refl, refl, refl)

module _ (prisma : Prisma) (settings : Settings) where
  -- The loop ends well: the counters add up, no row has lapsed, and the beds of its bookings, with
  -- those that were free, are free.
  abbrev IsSwept : Date → List Booking → ℕ → ℕ → Db → Result (ℕ × ℕ) × Db → Type 0
  IsSwept now lapsed holds approvals db ran =
      (h a : ℕ) × (db' : Db) × (ran ≡ (ok (h, a), db'))
      × (h + a ≡ holds + approvals + length lapsed)
      × IsNamed now [] db'.bookings
      × All (λ b. any (claims b.id) db'.allocations ≡ false) lapsed
      × ((k : ℕ) → any (claims k) db.allocations ≡ false → any (claims k) db'.allocations ≡ false)

  expire_each-IsSwept :
      (now : Date) (lapsed : List Booking) (holds approvals : ℕ) (db : Db)
      → IsNamed now lapsed db.bookings
      → IsPresent lapsed db.bookings
      → IsSwept now lapsed holds approvals db
          (expire_each prisma settings now lapsed holds approvals db)
  unfolding expire_each
  expire_each-IsSwept now [] holds approvals db named present =
      (holds, approvals, db, refl, omega arith, named, tt, λ k h. h)
  expire_each-IsSwept now (b ∷ lapsed) holds approvals db named present =
      let hold = is_pending_payment b.status in
      let reason =
        if hold then "Checkout not completed in time" else "Owner did not respond in time" in
      let (db₁, ran, bookings, allocations) =
        released_rows prisma now b.id b.status (sweep_status hold) reason db (reason_fits hold)
          present.0 in
      let (h, a, db', finished, count, over, free, kept) =
        expire_each-IsSwept now lapsed (if hold then holds + 1 else holds)
          (if hold then approvals else approvals + 1) db₁
          (rw bookings (swept-IsNamed now hold reason b lapsed db.bookings named))
          (rw bookings (swept-IsPresent now hold reason b.id lapsed db.bookings present.1)) in
      (
        h,
        a,
        db',
        rw ran finished,
        counted hold holds approvals (length lapsed) (h + a) count,
        over,
        (kept b.id (rw allocations (freed now reason b.id db.allocations)), free),
        λ k none_there.
            kept k (rw allocations (still_freed now reason b.id k db.allocations none_there)),
      )

  -- Where no more than 200 bookings have lapsed, the sweep over them ends without an error and counts
  -- each booking that it read once, as a hold or as an approval; afterwards no booking has lapsed, and
  -- none that had lapsed before claims a bed.
  pub expire_lapsed_lem :
      (now : Date) (db : Db)
      → length (select (has_lapsed now) db.bookings) ≤ 200
      → (h a : ℕ) × (db' : Db) × (expire_lapsed prisma settings now db ≡ (ok (h, a), db'))
        × (h + a ≡ length (find_lapsed prisma now db))
        × (any (has_lapsed now) db'.bookings ≡ false)
        × All (λ b. has_lapsed now b ≡ true → any (claims b.id) db'.allocations ≡ false) db.bookings
  unfolding expire_lapsed find_lapsed
  expire_lapsed_lem now db few =
      let found = prisma.find_up_to Booking 200 (has_lapsed now) db.bookings in
      let same : (q : Booking → Bool) → any q found ≡ any q (select (has_lapsed now) db.bookings) =
        λ q. prisma.find_up_to-any Booking 200 (has_lapsed now) q db.bookings few in
      let named = selected-IsNamed now found db.bookings same in
      let (h, a, db', finished, count, over, free, kept) =
        expire_each-IsSwept now found 0 0 db named
          (selected-IsPresent now found db.bookings same) in
      (
        h,
        a,
        db',
        finished,
        omega (arith, count),
        none_over now db'.bookings over,
        All-imp _ _ db.bookings
            (λ b found lapsed. named_free db'.allocations b.id _ free (found lapsed)) named,
      )

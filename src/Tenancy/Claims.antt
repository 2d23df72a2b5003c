-- ===== src/Tenancy/Claims.antt =====
-- The tenancies' transactions keep the claims on a bed apart.
use Prim.Native.String.{String}
use rookopg.Prelude.{
  ℕ, ◌+◌, ◌≡◌, refl, true, false, Option, some, List, [], ◌∷◌, ◌==◌, any, arith, ==_refl,
  Option-cases, inl, inr, or_else,
}
use rookopg.Calendar.{Date}
use rookopg.Errors.{ok}
use rookopg.Database.{BedAllocation, Tenancy, Db, overlaps}
use rookopg.Database.Client.{Prisma, changed}
use rookopg.Database.Claims.{Disjoint, Disjoint-changed, Disjoint-new}
use rookopg.Booking.Repository.{let_go, lapsed_hold}
use rookopg.Booking.Claims.{updated-Disjoint, let_go-Narrows}
use rookopg.Tenancy.Repository.{
  SeatInput, seat_claim, seat_walk_in, release_expired_holds, give_notice, check_out_repo,
  check_out_tenancy, find_tenancy, apart, claims_of, has_tenancy_id, left_on,
}

-- What the test on the whole table says.
pub apart-Disjoint : (rows : List BedAllocation) → apart rows ≡ true → Disjoint rows
unfolding apart
apart-Disjoint [] h = tt
apart-Disjoint (a ∷ rows) h =
    Disjoint-new a rows (ground arith) (apart-Disjoint rows (ground arith))

abbrev pub filled_in : ℕ → BedAllocation → BedAllocation
filled_in id a = record a { booking_id = some (id + 2); tenancy_id = some (id + 3) }

module _ (prisma : Prisma) where
  new_seat :
      (input : SeatInput) (db : Db)
      → prisma.update BedAllocation
          (λ a. a.id == db.next_id)
          (λ a. record a { booking_id = some (db.next_id + 2); tenancy_id = some (db.next_id + 3) })
          (prisma.create BedAllocation (seat_claim input db.next_id) db.allocations)
        ≡ ok (
            changed
              (λ a. a.id == db.next_id)
              (filled_in db.next_id)
              (seat_claim input db.next_id ∷ db.allocations))
  new_seat input db =
      let found : any (λ (a : BedAllocation). a.id == db.next_id)
            (seat_claim input db.next_id ∷ db.allocations)
          ≡ true =
        ground (arith, ==_refl db.next_id) in
      rw (prisma.create-eq BedAllocation (seat_claim input db.next_id) db.allocations) (
        prisma.update_found BedAllocation (λ a. a.id == db.next_id) (filled_in db.next_id)
          (seat_claim input db.next_id ∷ db.allocations) found)

  -- The claims after a seating, and what it asked of those before.
  pub seat_walk_in_rows :
      (now : Date) (input : SeatInput) (db : Db) {t : Tenancy} {db' : Db}
      → seat_walk_in prisma now input db ≡ ok (t, db')
      → (any (overlaps (seat_claim input db.next_id)) db.allocations ≡ false)
        × (db'.allocations
            ≡ changed
                (λ a. a.id == db.next_id)
                (filled_in db.next_id)
                (seat_claim input db.next_id ∷ db.allocations))
  unfolding seat_walk_in
  seat_walk_in_rows now input db ran = ground (arith, new_seat input db)

  pub seat_walk_in-Disjoint :
      (now : Date) (input : SeatInput) (db : Db) {t : Tenancy} {db' : Db}
      → Disjoint db.allocations
      → seat_walk_in prisma now input db ≡ ok (t, db')
      → Disjoint db'.allocations
  seat_walk_in-Disjoint now input db h ran =
      let (free, rows) = seat_walk_in_rows now input db ran in
      rw rows (
        Disjoint-changed (λ a. a.id == db.next_id) (filled_in db.next_id)
          (seat_claim input db.next_id ∷ db.allocations)
          (λ a. record { bed = refl; start = refl; until = refl; live = λ k. k })
          (Disjoint-new (seat_claim input db.next_id) db.allocations free h))

  pub release_expired_holds-Disjoint :
      (now : Date) (bed_id : ℕ) (db : Db)
      → Disjoint db.allocations
      → Disjoint (release_expired_holds prisma now bed_id db).allocations
  unfolding release_expired_holds
  release_expired_holds-Disjoint now bed_id db h =
      updated-Disjoint prisma (lapsed_hold now bed_id) (let_go now "Hold expired") db.allocations
        (let_go-Narrows prisma now "Hold expired") h

  give_notice_rows :
      (now : Date) (tenancy_id : ℕ) (vacate_date : Date) (actor_id : ℕ) (reason : Option String)
      (db : Db) {db' : Db}
      → give_notice prisma now tenancy_id vacate_date actor_id reason db ≡ ok db'
      → apart db'.allocations ≡ true
  unfolding give_notice
  give_notice_rows now tenancy_id vacate_date actor_id reason db ran = ground arith

  pub give_notice-Disjoint :
      (now : Date) (tenancy_id : ℕ) (vacate_date : Date) (actor_id : ℕ) (reason : Option String)
      (db : Db) {db' : Db}
      → give_notice prisma now tenancy_id vacate_date actor_id reason db ≡ ok db'
      → Disjoint db'.allocations
  give_notice-Disjoint now tenancy_id vacate_date actor_id reason db {db'} ran =
      apart-Disjoint db'.allocations
        (give_notice_rows now tenancy_id vacate_date actor_id reason db ran)

  pub check_out_rows :
      (now : Date) (tenancy_id : ℕ) (vacate_date : Date) (actor_id : ℕ) (reason : Option String)
      (db : Db) {db' : Db}
      → check_out_repo prisma now tenancy_id vacate_date actor_id reason db ≡ ok db'
      → (current : Tenancy) × (find_tenancy prisma tenancy_id db ≡ some current)
        × (db'.allocations
            ≡ prisma.update_many BedAllocation
                (claims_of tenancy_id)
                (let_go now (or_else reason "Tenant checked out"))
                db.allocations)
        × (prisma.update Tenancy (has_tenancy_id tenancy_id) (left_on vacate_date) db.tenancies
            ≡ ok db'.tenancies)
  unfolding check_out_repo check_out_tenancy
  check_out_rows now tenancy_id vacate_date actor_id reason db ran =
      elim (Option-cases (find_tenancy prisma tenancy_id db)) [
        | inl missing ↦ ground arith
        | inr (current, found) ↦ (current, found, ground arith, ground arith)
      ]

  pub check_out_repo-Disjoint :
      (now : Date) (tenancy_id : ℕ) (vacate_date : Date) (actor_id : ℕ) (reason : Option String)
      (db : Db) {db' : Db}
      → Disjoint db.allocations
      → check_out_repo prisma now tenancy_id vacate_date actor_id reason db ≡ ok db'
      → Disjoint db'.allocations
  check_out_repo-Disjoint now tenancy_id vacate_date actor_id reason db h ran =
      let reason' = or_else reason "Tenant checked out" in
      rw (check_out_rows now tenancy_id vacate_date actor_id reason db ran).2 (
        updated-Disjoint prisma (claims_of tenancy_id) (let_go now reason') db.allocations
          (let_go-Narrows prisma now reason') h)

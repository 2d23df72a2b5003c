-- ===== src/Booking/Checkout/Candidates.antt =====
-- The search for a free bed agrees with the constraint on claims.
use rookopg.Prelude.{
  ℕ, ◌≡◌, ◌≢◌, refl, true, false, List, [], ◌∷◌, any, map, select, arith, Bool-cases, inl, inr, All,
  All-imp, All-into, All-append, All-select, ==_iff,
}
use rookopg.Calendar.{Date}
use rookopg.Errors.{throw, bed_already_taken}
use rookopg.BedLabels.{SharingType}
use rookopg.Database.{BedAllocation, Room, Bed, Db, overlaps}
use rookopg.Database.Client.{Prisma, changed}
use rookopg.Payments.{PaymentGateway}
use rookopg.Booking.Repository.{HoldInput, hold_bed, hold_claim, lapsed_hold, let_go}
use rookopg.Booking.Claims.{new_row}
use rookopg.Booking.Checkout.{
  CheckoutSettings, CandidateBed, Quote, candidate_beds, beds_of, candidate, claims_from,
  is_candidate_room, is_candidate_bed, hold_input,
}

-- A bed that no active claim holds on or after a day.
abbrev pub IsFree : Date → Db → CandidateBed → Type 0
IsFree from db c = any (claims_from from c.bed_id) db.allocations ≡ false

candidate_bed-IsFree :
    (from : Date) (db : Db) (r : Room) (b : Bed)
    → is_candidate_bed from db r.id b ≡ true
    → IsFree from db (candidate r b)
candidate_bed-IsFree from db r b h =
    elim (Bool-cases (any (claims_from from b.id) db.allocations)) [
      | inl taken ↦ ground arith
      | inr free ↦ free
    ]

-- A claim from that day on overlaps no row of a free bed, also once lapsed holds are let go.
no_overlap :
    (now : Date) (input : HoldInput) (id : ℕ) (rows : List BedAllocation)
    → any (claims_from input.move_in_date input.bed_id) rows ≡ false
    → any
        (overlaps (hold_claim input id))
        (changed (lapsed_hold now input.bed_id) (let_go now "Hold expired") rows)
      ≡ false
unfolding overlaps
no_overlap now input id [] h = refl
no_overlap now input id (a ∷ rows) h = ground (
  arith,
  no_overlap now input id rows,
  ==_iff a.bed_id input.bed_id,
  ==_iff input.bed_id a.bed_id,
)

module _ (prisma : Prisma) where
  -- Where no row overlaps, the claim can only be refused for its key.
  hold_bed_free :
      (now : Date) (input : HoldInput) (db : Db)
      → any (claims_from input.move_in_date input.bed_id) db.allocations ≡ false
      → hold_bed prisma now input db ≢ throw bed_already_taken
  unfolding hold_bed
  hold_bed_free now input db free =
      let fits = no_overlap now input db.next_id db.allocations free in
      let same =
        prisma.update_many-eq BedAllocation (lapsed_hold now input.bed_id)
          (let_go now "Hold expired") db.allocations in
      λ taken. ground (arith, new_row prisma now input db)

  beds_of-IsFree :
      (from : Date) (db : Db) (rooms : List Room)
      → All (IsFree from db) (beds_of prisma from db rooms)
  unfolding beds_of
  beds_of-IsFree from db [] = tt
  beds_of-IsFree from db (r ∷ rooms) =
      let beds = select (is_candidate_bed from db r.id) db.beds in
      rw (prisma.find_many-eq Bed (is_candidate_bed from db r.id) db.beds) (
        All-append (IsFree from db) (map (candidate r) beds) (beds_of prisma from db rooms)
          (All-into (λ (b : Bed). is_candidate_bed from db r.id b ≡ true) (IsFree from db)
            (candidate r) beds (candidate_bed-IsFree from db r)
            (All-select (is_candidate_bed from db r.id) db.beds))
          (beds_of-IsFree from db rooms))

  module _ (settings : CheckoutSettings) (gateway : PaymentGateway) where
    -- Every bed that the search offers for a property, a kind of room and a day has no active claim from
    -- that day on, and holding it in the same database is never refused for a claim that overlaps.
    pub candidate_beds_lem :
        (now : Date) (user_id key : ℕ) (q : Quote) (sharing_type : SharingType) (db : Db)
        → All
            (λ c.
              IsFree q.move_in_date db c
              × (hold_bed prisma now (hold_input prisma settings gateway now user_id key q c) db
                  ≢ throw bed_already_taken))
            (candidate_beds prisma q.property.id sharing_type q.move_in_date db)
    unfolding candidate_beds
    candidate_beds_lem now user_id key q sharing_type db =
        let rooms =
          prisma.find_ordered Room (λ r. r.base_rent_paise)
            (is_candidate_room q.property.id sharing_type) db.rooms in
        All-imp (IsFree q.move_in_date db) _ (beds_of prisma q.move_in_date db rooms)
          (λ c free. (
            free,
            hold_bed_free now (hold_input prisma settings gateway now user_id key q c) db free,
          ))
          (beds_of-IsFree q.move_in_date db rooms)

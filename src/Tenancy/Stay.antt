-- ===== src/Tenancy/Stay.antt =====
-- Who may end a stay and when, and what is left of it; and what a seating that fails leaves.
use Prim.Native.String.{String}
use rookopg.Prelude.{
  ℕ, ◌≡◌, ◌<◌, refl, Bool, true, false, ◌&&◌, Option, some, List, [], ◌∷◌, ◌==◌, any, arith, ◌⊎◌,
  inl, inr, Option-cases, Bool-cases, or_else, is_none,
}
use rookopg.Calendar.{Date}
use rookopg.Errors.{Result-cases, ok, throw, DomainError, hide_forbidden}
use rookopg.Iam.{AuthenticatedActor, assert_property_access}
use rookopg.Database.{BedAllocation, Property, Tenancy, Db}
use rookopg.Database.Client.{Prisma, changed, update_ok}
use rookopg.Database.Session.{transact_with}
use rookopg.Booking.Repository.{let_go}
use rookopg.Billing.Service.{assert_access}
use rookopg.Phone.{normalise_phone}
use rookopg.Tenancy.Repository.{
  SeatInput, find_bed_for_seating, seat_walk_in, release_expired_holds, find_tenancy,
  check_out_repo, claims_of, has_tenancy_id, left_on,
}
use rookopg.Tenancy.Claims.{check_out_rows}
use rookopg.Tenancy.Service.{
  SeatTenantDto, seat_input, seat_tenant, load_authorised, give_tenant_notice, check_tenant_out,
  tenancy_writers, has_not_left, lives_there, is_seatable, requested_date, to_date, not_before,
  as_conflict,
}

none_left :
    (p : BedAllocation → Bool) (f : BedAllocation → BedAllocation) (rows : List BedAllocation)
    → ((a : BedAllocation) → p (f a) ≡ false)
    → any p (changed p f rows) ≡ false
none_left p f [] h = refl
none_left p f (a ∷ rows) h = elim (Bool-cases (p a)) [
  | inl here ↦ rw (here, h a) (none_left p f rows h)
  | inr there ↦ rw (there, there) (none_left p f rows h)
]

let_go_claims :
    (now : Date) (reason : String) (tenancy_id : ℕ) (a : BedAllocation)
    → claims_of tenancy_id (let_go now reason a) ≡ false
let_go_claims now reason tenancy_id a = ground arith

all_ended :
    (tenancy_id : ℕ) (vacate_date : Date) (ts : List Tenancy)
    → any
        (λ t. has_tenancy_id tenancy_id t && has_not_left t.status)
        (changed (has_tenancy_id tenancy_id) (left_on vacate_date) ts)
      ≡ false
all_ended tenancy_id vacate_date [] = refl
all_ended tenancy_id vacate_date (t ∷ ts) = ground (arith, all_ended tenancy_id vacate_date ts)

module _ (prisma : Prisma) where
  -- After a check-out no active claim is left of the tenancy, and it is ended.
  check_out_repo_frees :
      (now : Date) (tenancy_id : ℕ) (vacate_date : Date) (actor_id : ℕ) (reason : Option String)
      (db : Db) {db' : Db}
      → check_out_repo prisma now tenancy_id vacate_date actor_id reason db ≡ ok db'
      → (any (claims_of tenancy_id) db'.allocations ≡ false)
        × (any (λ t. has_tenancy_id tenancy_id t && has_not_left t.status) db'.tenancies ≡ false)
  check_out_repo_frees now tenancy_id vacate_date actor_id reason db {db'} ran =
      let reason' = or_else reason "Tenant checked out" in
      let (current, found, rows, tenancies) =
        check_out_rows prisma now tenancy_id vacate_date actor_id reason db ran in
      (
        rw
            (
              rows,
              prisma.update_many-eq BedAllocation (claims_of tenancy_id) (let_go now reason')
                  db.allocations,
            )
            (none_left (claims_of tenancy_id) (let_go now reason') db.allocations
              (let_go_claims now reason' tenancy_id)),
        rw
            (update_ok prisma (has_tenancy_id tenancy_id) (left_on vacate_date) db.tenancies
              tenancies)
            (all_ended tenancy_id vacate_date db.tenancies),
      )

  check_tenant_out_ran :
      (now : Date) (actor : AuthenticatedActor) (tenancy_id : ℕ) (vacate_on : Option (Option Date))
      (reason : Option String) (db : Db)
      → (check_tenant_out prisma now actor tenancy_id vacate_on reason db).0 ≡ ok tt
      → (t : Tenancy) × (requested : Date) × (find_tenancy prisma tenancy_id db ≡ some t)
        × (assert_property_access actor t.org_id t.property_id tenancy_writers ≡ ok tt)
        × (has_not_left t.status ≡ true)
        × (requested_date now vacate_on ≡ ok requested)
        × (check_out_repo prisma now tenancy_id
              (not_before t.start_date requested)
              actor.user_id
              reason
              db
            ≡ ok (check_tenant_out prisma now actor tenancy_id vacate_on reason db).1)
  unfolding check_tenant_out load_authorised hide_forbidden
  check_tenant_out_ran now actor tenancy_id vacate_on reason db h =
      elim (Option-cases (find_tenancy prisma tenancy_id db)) [
        | inl missing ↦ ground arith
        | inr (t, found) ↦ elim (Result-cases (requested_date now vacate_on)) [
          | inr (e, thrown) ↦ ground arith
          | inl (requested, when) ↦
              elim (Result-cases (
                check_out_repo prisma now tenancy_id (not_before t.start_date requested)
                  actor.user_id reason db)) [
                    | inr (e, thrown) ↦ ground arith
                    | inl (db', ran) ↦
                        (t, requested, found, ground arith, ground arith, when, ground arith)
                  ]
        ]
      ]

  -- A check-out that succeeds is of a tenancy that had not ended, by someone whom the access check lets act on
  -- its property as owner or manager; it leaves the tenancy ended, and no active claim of it on any bed.
  pub check_tenant_out_lem :
      (now : Date) (actor : AuthenticatedActor) (tenancy_id : ℕ) (vacate_on : Option (Option Date))
      (reason : Option String) (db : Db)
      → (check_tenant_out prisma now actor tenancy_id vacate_on reason db).0 ≡ ok tt
      → let db' = (check_tenant_out prisma now actor tenancy_id vacate_on reason db).1 in
        (t : Tenancy) × (find_tenancy prisma tenancy_id db ≡ some t)
        × (assert_property_access actor t.org_id t.property_id tenancy_writers ≡ ok tt)
        × (has_not_left t.status ≡ true)
        × (any (claims_of tenancy_id) db'.allocations ≡ false)
        × (any (λ t. has_tenancy_id tenancy_id t && has_not_left t.status) db'.tenancies ≡ false)
  check_tenant_out_lem now actor tenancy_id vacate_on reason db h =
      let (t, requested, found, allowed, here, when, ran) =
        check_tenant_out_ran now actor tenancy_id vacate_on reason db h in
      let freed =
        check_out_repo_frees now tenancy_id (not_before t.start_date requested) actor.user_id reason
          db ran in
      (t, found, allowed, here, freed.0, freed.1)

  -- Notice that is accepted is of a tenancy that was active, by someone whom the access check lets act on its
  -- property as owner or manager, for a day after the move-in day.
  give_tenant_notice_lem :
      (now : Date) (actor : AuthenticatedActor) (tenancy_id : ℕ) (vacate_on : Option Date)
      (reason : Option String) (db : Db)
      → (give_tenant_notice prisma now actor tenancy_id vacate_on reason db).0 ≡ ok tt
      → (t : Tenancy) × (vacate_date : Date) × (find_tenancy prisma tenancy_id db ≡ some t)
        × (assert_property_access actor t.org_id t.property_id tenancy_writers ≡ ok tt)
        × (lives_there t.status ≡ true)
        × (to_date vacate_on ≡ ok vacate_date)
        × (t.start_date < vacate_date)
  unfolding give_tenant_notice load_authorised hide_forbidden
  give_tenant_notice_lem now actor tenancy_id vacate_on reason db h =
      elim (Option-cases (find_tenancy prisma tenancy_id db)) [
        | inl missing ↦ ground arith
        | inr (t, found) ↦ elim (Result-cases (to_date vacate_on)) [
          | inr (e, thrown) ↦ ground arith
          | inl (vacate_date, when) ↦
              (t, vacate_date, found, ground arith, ground arith, when, ground arith)
        ]
      ]

  seating_failed :
      (now : Date) (input : SeatInput) (bed_id : ℕ) (db : Db) {e : DomainError}
      → (transact_with
          (λ db. as_conflict (seat_walk_in prisma now input db))
          (release_expired_holds prisma now bed_id db)).0
        ≡ throw e
      → (transact_with
          (λ db. as_conflict (seat_walk_in prisma now input db))
          (release_expired_holds prisma now bed_id db)).1
        ≡ release_expired_holds prisma now bed_id db
  seating_failed now input bed_id db h =
      elim (Result-cases (
        as_conflict (seat_walk_in prisma now input (release_expired_holds prisma now bed_id db)))) [
          | inl (seated, ran) ↦ ground arith
          | inr (e', thrown) ↦ rw thrown refl
        ]

  -- A seating that fails, for whatever reason, leaves the database as it was, but for checkout holds on that
  -- bed that had lapsed and may have been released.
  seat_tenant_failed :
      (now : Date) (actor : AuthenticatedActor) (property_id : ℕ) (dto : SeatTenantDto) (db : Db)
      {e : DomainError}
      → (seat_tenant prisma now actor property_id dto db).0 ≡ throw e
      → let db' = (seat_tenant prisma now actor property_id dto db).1 in
        (db' ≡ db) ⊎ ((bed_id : ℕ) × (db' ≡ release_expired_holds prisma now bed_id db))
  unfolding seat_tenant assert_access hide_forbidden
  seat_tenant_failed now actor property_id dto db h =
      elim (Option-cases (
        prisma.find_first Property (λ p. (p.id == property_id) && is_none p.deleted_at)
          db.properties)) [
            | inl missing ↦ inl (rw missing refl)
            | inr (property, there) ↦
                elim (Result-cases (
                  hide_forbidden "Property"
                    (assert_property_access actor property.org_id property.id tenancy_writers))) [
                      | inr (e', thrown) ↦ inl (rw (there, thrown) refl)
                      | inl (_, allowed) ↦
                          elim (Option-cases (find_bed_for_seating prisma dto.bed_id db)) [
                            | inl missing ↦ inl (rw (there, allowed, missing) refl)
                            | inr (bed, found) ↦
                                elim (Bool-cases (bed.property_id == property_id)) [
                                  | inr elsewhere ↦ inl (rw (there, allowed, found, elsewhere) refl)
                                  | inl here ↦ elim (Bool-cases (is_seatable bed.status)) [
                                    | inr closed ↦
                                        inl (rw (there, allowed, found, here, closed) refl)
                                    | inl seatable ↦ elim (Result-cases (to_date dto.start_date)) [
                                      | inr (e', thrown) ↦
                                          inl (
                                            rw (there, allowed, found, here, seatable, thrown) refl)
                                      | inl (start_date, when) ↦
                                          elim (Option-cases (normalise_phone dto.phone)) [
                                            | inl wrong ↦ inl (
                                                rw
                                                  (
                                                    there, allowed, found, here, seatable, when,
                                                    wrong,
                                                  )
                                                  refl)
                                            | inr (phone, right) ↦ inr (
                                              bed.id,
                                              rw
                                                  (
                                                    there, allowed, found, here, seatable, when,
                                                    right,
                                                  )
                                                  (seating_failed now
                                                    (seat_input actor property_id bed start_date
                                                      phone dto)
                                                    bed.id db
                                                    (rw
                                                      (
                                                        there, allowed, found, here, seatable, when,
                                                        right,
                                                      )
                                                      at h)),
                                            )
                                          ]
                                    ]
                                  ]
                                ]
                          ]
                    ]
          ]

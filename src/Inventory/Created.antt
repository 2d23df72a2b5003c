-- ===== src/Inventory/Created.antt =====
-- What a bulk request adds to the inventory.
use rookopg.Prelude.{
  ℕ, ◌+◌, ◌≡◌, ◌≤◌, ◌⊎◌, refl, ap, not, List, [], ◌∷◌, any, map, length, sum_of, arith, Bool-cases,
  inl, inr, All,
}
use mathlib.Core.Path.{subst}
use rookopg.Errors.{
  Result-cases, ok, throw, DomainError, conflict, unique_violation, require, >>=-ok,
}
use rookopg.Iam.{AuthenticatedActor}
use rookopg.Database.{Room, Bed, Property, Db}
use rookopg.Database.Client.{Prisma}
use rookopg.Inventory.{BulkFloor, RoomPlan, plan_bulk, plan_code, is_empty}
use rookopg.Inventory.Plans.{IsPlanned, plan_bulk_lem}
use rookopg.Inventory.Repository.{
  RoomWithBeds, create_each, create_rooms_with_beds, with_beds, with_room, new_room, new_bed,
  is_coded, existing_room_codes,
}
use rookopg.Inventory.Service.{bulk_create_rooms, assert_codes_free, inventory_writers}
use rookopg.Inventory.Removal.{access_same}

module _ (prisma : Prisma) where
  length-with_beds :
      (id room_id property_id : ℕ) (codes : List (List ℕ)) (beds : List Bed)
      → length (with_beds prisma id room_id property_id codes beds) ≡ length codes + length beds
  length-with_beds id room_id property_id [] beds = omega arith
  length-with_beds id room_id property_id (code ∷ codes) beds =
      rw
        (prisma.create-eq Bed (new_bed id room_id property_id code)
          (with_beds prisma (id + 1) room_id property_id codes beds))
        (omega (arith, length-with_beds (id + 1) room_id property_id codes beds))

  created_counts :
      (property_id org_id : ℕ) (plans : List RoomPlan) (db : Db) {ids : List ℕ} {db' : Db}
      → All IsPlanned plans
      → create_each prisma property_id org_id plans db ≡ ok (ids, db')
      → (length db'.rooms ≡ length plans + length db.rooms)
        × (length db'.beds ≡ sum_of (λ p. p.sharing_capacity) plans + length db.beds)
        × (db'.allocations ≡ db.allocations)
  unfolding create_each
  created_counts property_id org_id [] db {ids} {db'} planned h =
      let same : db ≡ db' = ground arith in
      subst
        (λ d.
          (length d.rooms ≡ 0 + length db.rooms)
          × (length d.beds ≡ 0 + length db.beds)
          × (d.allocations ≡ db.allocations))
        same (omega arith, omega arith, refl)
  created_counts property_id org_id (plan ∷ plans) db {ids} {db'} planned h =
      let (_, fresh, h') =
        >>=-ok {m = require (not (any (is_coded property_id plan.code) db.rooms)) unique_violation}
          h in
      let (rest, made, last) =
        >>=-ok
          {m = create_each prisma property_id org_id plans
            (with_room prisma property_id org_id plan db)}
          h' in
      let (rooms, beds, claims) =
        created_counts property_id org_id plans (with_room prisma property_id org_id plan db)
          planned.1 made in
      let same : rest.1 ≡ db' = ground arith in
      let added = prisma.create-eq Room (new_room db.next_id property_id org_id plan) db.rooms in
      let rooms' : length rest.1.rooms ≡ 1 + length plans + length db.rooms =
        omega (arith, rooms, ap length added) in
      let beds' = length-with_beds (db.next_id + 1) db.next_id property_id plan.bed_codes db.beds in
      let full : length plan.bed_codes ≡ plan.sharing_capacity = planned.0.0 in
      subst
        (λ d.
          (length d.rooms ≡ length (plan ∷ plans) + length db.rooms)
          × (length d.beds ≡ sum_of (λ p. p.sharing_capacity) (plan ∷ plans) + length db.beds)
          × (d.allocations ≡ db.allocations))
        same (omega (arith, rooms'), omega (arith, beds, beds', full), claims)

  created_lem :
      (property_id org_id : ℕ) (plans : List RoomPlan) (db : Db) {rooms : List RoomWithBeds}
      {db' : Db}
      → create_rooms_with_beds prisma property_id org_id plans db ≡ ok (rooms, db')
      → (ids : List ℕ) × (create_each prisma property_id org_id plans db ≡ ok (ids, db'))
  unfolding create_rooms_with_beds
  created_lem property_id org_id plans db {rooms} {db'} h =
      let (r, made, last) = >>=-ok {m = create_each prisma property_id org_id plans db} h in
      let same : r.1 ≡ db' = ground arith in
      (r.0, subst (λ d. create_each prisma property_id org_id plans db ≡ ok (r.0, d)) same made)

  codes_free_same :
      (property_id : ℕ) (codes : List (List ℕ)) (db : Db)
      → (assert_codes_free prisma property_id codes db ≡ (ok tt, db))
        ⊎ ((e : DomainError) × (assert_codes_free prisma property_id codes db ≡ (throw e, db)))
  unfolding assert_codes_free
  codes_free_same property_id codes db =
      elim (Bool-cases (is_empty (existing_room_codes prisma property_id codes db))) [
        | inl free ↦ inl (rw free refl)
        | inr taken ↦ inr (conflict "These room numbers already exist", rw taken refl)
      ]

  bulk_ran :
      (actor : AuthenticatedActor) (property_id : ℕ) (floors : List BulkFloor) (db : Db)
      {rooms : List RoomWithBeds} {db' : Db}
      → bulk_create_rooms prisma actor property_id floors db ≡ (ok rooms, db')
      → (p : Property) × (plans : List RoomPlan) × (plan_bulk floors ≡ ok plans)
        × (create_rooms_with_beds prisma property_id p.org_id plans db ≡ ok (rooms, db'))
  unfolding bulk_create_rooms
  bulk_ran actor property_id floors db {rooms} {db'} h =
      elim (access_same prisma actor property_id inventory_writers db) [
        | inr (e, denied) ↦ absurd (
            let stop : (throw e, db) ≡ (ok rooms, db') = (rw (denied, bulk_create_rooms) at h) in
            ground arith)
        | inl (p, allowed) ↦ elim (Result-cases (plan_bulk floors)) [
          | inr (e, bad) ↦ absurd (
              let stop : (throw e, db) ≡ (ok rooms, db') =
                (rw (allowed, bad, bulk_create_rooms) at h) in
              ground arith)
          | inl (plans, good) ↦ elim (codes_free_same property_id (map plan_code plans) db) [
            | inr (e, taken) ↦ absurd (
                let stop : (throw e, db) ≡ (ok rooms, db') =
                  (rw (allowed, good, taken, bulk_create_rooms) at h) in
                ground arith)
            | inl free ↦
                elim (Result-cases (create_rooms_with_beds prisma property_id p.org_id plans db)) [
                  | inr (e, thrown) ↦ absurd (
                      let stop : (throw e, db) ≡ (ok rooms, db') =
                        (rw (allowed, good, free, thrown, bulk_create_rooms) at h) in
                      ground arith)
                  | inl (r, made) ↦
                      let same : (ok r.0, r.1) ≡ (ok rooms, db') =
                        (rw (allowed, good, free, made, bulk_create_rooms) at h) in
                      let both : r ≡ (rooms, db') = ground arith in
                      (
                        p,
                        plans,
                        good,
                        subst
                            (λ x.
                              create_rooms_with_beds prisma property_id p.org_id plans db ≡ ok x)
                            both made,
                      )
                ]
          ]
        ]
      ]

  -- A bulk request that succeeds adds as many rooms as its floors ask for, at most 200, a bed for each
  -- place of every room that it planned, and leaves every claim as it was.
  pub bulk_create_rooms_lem :
      (actor : AuthenticatedActor) (property_id : ℕ) (floors : List BulkFloor) (db : Db)
      {rooms : List RoomWithBeds} {db' : Db}
      → bulk_create_rooms prisma actor property_id floors db ≡ (ok rooms, db')
      → (plans : List RoomPlan) × (plan_bulk floors ≡ ok plans)
        × (length db'.rooms ≡ sum_of (λ f. f.room_count) floors + length db.rooms)
        × (sum_of (λ f. f.room_count) floors ≤ 200)
        × (length db'.beds ≡ sum_of (λ p. p.sharing_capacity) plans + length db.beds)
        × (db'.allocations ≡ db.allocations)
  bulk_create_rooms_lem actor property_id floors db h =
      let (p, plans, good, made) = bulk_ran actor property_id floors db h in
      let (count, _, few, _, planned) = plan_bulk_lem floors plans good in
      let (ids, ran) = created_lem property_id p.org_id plans db made in
      let (rooms, beds, claims) = created_counts property_id p.org_id plans db planned ran in
      (plans, good, omega (arith, rooms, count), omega (arith, few, count), beds, claims)

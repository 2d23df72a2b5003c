-- ===== src/Inventory/Removal.antt =====
-- Removing a room: only where nothing claims its beds, and then room and beds are gone.
use rookopg.Prelude.{
  ℕ, ◌≡◌, refl, ap, ◌⊎◌, Bool, true, false, ◌&&◌, some, List, [], ◌∷◌, ◌==◌, any, length, select,
  arith, Bool-cases, Option-cases, inl, inr, is_none,
}
use mathlib.Core.Path.{subst}
use rookopg.Calendar.{Date}
use rookopg.Errors.{Result, Result-cases, ok, throw, DomainError, hide_forbidden, not_found}
use rookopg.Iam.{AuthenticatedActor, OrgRole, assert_property_access}
use rookopg.Database.{Room, Bed, Property, BedAllocation, Db}
use rookopg.Database.Client.{Prisma, changed, update_ok}
use rookopg.Inventory.Repository.{
  RoomWithBeds, find_room, is_room, is_there, stands_in, soft_delete_room, count_active_allocations,
  claims_one_of,
}
use rookopg.Inventory.Service.{bed_ids, assert_inventory_access, remove_room, inventory_writers}

none_counted :
    {A : Type 0} (p : A → Bool) (xs : List A)
    → (length (select p xs) == 0) ≡ true
    → any p xs ≡ false
none_counted p [] h = refl
none_counted p (x ∷ xs) h = elim (Bool-cases (p x)) [
  | inl here ↦
      absurd (let counted : (length (x ∷ select p xs) == 0) ≡ true = (rw here at h) in ground arith)
  | inr other ↦ rw other (none_counted p xs (rw other at h))
]

gone_rooms :
    (now : Date) (room_id : ℕ) (rows : List Room)
    → any
        (is_there room_id)
        (changed (is_room room_id) (λ r. record r { deleted_at = some now }) rows)
      ≡ false
gone_rooms now room_id [] = refl
gone_rooms now room_id (r ∷ rows) = ground (arith, gone_rooms now room_id rows)

gone_beds :
    (now : Date) (room_id : ℕ) (rows : List Bed)
    → any
        (stands_in room_id)
        (changed (stands_in room_id) (λ b. record b { deleted_at = some now }) rows)
      ≡ false
gone_beds now room_id [] = refl
gone_beds now room_id (b ∷ rows) = ground (arith, gone_beds now room_id rows)

module _ (prisma : Prisma) where
  pub access_same :
      (actor : AuthenticatedActor) (property_id : ℕ) (roles : List OrgRole) (db : Db)
      → ((p : Property) × (assert_inventory_access prisma actor property_id roles db ≡ (ok p, db)))
        ⊎ ((e : DomainError) × (assert_inventory_access prisma actor property_id roles db
              ≡ (throw e, db)))
  unfolding assert_inventory_access
  access_same actor property_id roles db =
      elim (Option-cases (
        prisma.find_first Property (λ p. (p.id == property_id) && is_none p.deleted_at)
          db.properties)) [
            | inl missing ↦ inr (not_found "Property", rw missing refl)
            | inr (p, found) ↦
                elim (Result-cases
                  (hide_forbidden "Property" (assert_property_access actor p.org_id p.id roles))) [
                    | inl (_, allowed) ↦ inl (p, rw (found, allowed) refl)
                    | inr (e, denied) ↦ inr (e, rw (found, denied) refl)
                  ]
          ]

  deleted_rows :
      (now : Date) (room_id : ℕ) (db : Db) {db' : Db}
      → soft_delete_room prisma now room_id db ≡ ok db'
      → (any (is_there room_id) db'.rooms ≡ false)
        × (any (stands_in room_id) db'.beds ≡ false)
        × (db'.allocations ≡ db.allocations)
  unfolding soft_delete_room
  deleted_rows now room_id db {db'} h =
      elim (Result-cases
        (prisma.update Room (is_room room_id) (λ r. record r { deleted_at = some now }) db.rooms)) [
          | inr (e, thrown) ↦ ground arith
          | inl (rooms, made) ↦
              let same =
                update_ok prisma (is_room room_id) (λ r. record r { deleted_at = some now })
                  db.rooms made in
              let beds =
                prisma.update_many-eq Bed (stands_in room_id)
                  (λ b. record b { deleted_at = some now }) db.beds in
              let rows : db'.rooms ≡ rooms = ground arith in
              let bed_rows : db'.beds
                  ≡ changed (stands_in room_id) (λ b. record b { deleted_at = some now }) db.beds =
                ground arith in
              (
                rw (rows, same) (gone_rooms now room_id db.rooms),
                rw bed_rows (gone_beds now room_id db.beds),
                ground arith,
              )
        ]

  -- Where a room is removed, it was there, no active claim was on any of its beds, and afterwards it and
  -- its beds are no longer found, while the claims are as they were.
  pub remove_room_lem :
      (now : Date) (actor : AuthenticatedActor) (room_id : ℕ) (db : Db) {db' : Db}
      → remove_room prisma now actor room_id db ≡ (ok tt, db')
      → (room : RoomWithBeds) × (find_room prisma room_id db ≡ some room)
        × (any (claims_one_of (bed_ids room)) db.allocations ≡ false)
        × (any (is_there room_id) db'.rooms ≡ false)
        × (any (stands_in room_id) db'.beds ≡ false)
        × (db'.allocations ≡ db.allocations)
  unfolding remove_room count_active_allocations
  remove_room_lem now actor room_id db {db'} h = elim (Option-cases (find_room prisma room_id db)) [
    | inl missing ↦ absurd (let stop = (rw (missing, remove_room) at h) in ground arith)
    | inr (room, found) ↦ elim (access_same actor room.room.property_id inventory_writers db) [
      | inr (e, denied) ↦ absurd (
          let stop : (throw e, db) ≡ (ok tt, db') = (rw (found, denied, remove_room) at h) in
          ground arith)
      | inl (p, allowed) ↦
          let counted =
            prisma.find_many-eq BedAllocation (claims_one_of (bed_ids room)) db.allocations in
          elim (Bool-cases (count_active_allocations prisma (bed_ids room) db == 0)) [
            | inr claimed ↦
                absurd (let stop = (rw (found, allowed, claimed, remove_room) at h) in ground arith)
            | inl free ↦ elim (Result-cases (soft_delete_room prisma now room_id db)) [
              | inr (e, thrown) ↦ absurd (
                  let stop : (throw e, db) ≡ (ok tt, db') =
                    (rw (found, allowed, free, thrown, remove_room) at h) in
                  ground arith)
              | inl (db1, gone) ↦
                  let same : db1 ≡ db' =
                    ap (λ (x : Result (Unit {0}) × Db). x.1)
                      (rw (found, allowed, free, gone, remove_room) at h) in
                  let (rooms, beds, claims) =
                    subst
                      (λ d.
                        (any (is_there room_id) d.rooms ≡ false)
                        × (any (stands_in room_id) d.beds ≡ false)
                        × (d.allocations ≡ db.allocations))
                      same (deleted_rows now room_id db gone) in
                  (
                    room,
                    found,
                    none_counted (claims_one_of (bed_ids room)) db.allocations (rw counted at free),
                    rooms,
                    beds,
                    claims,
                  )
            ]
          ]
    ]
  ]

-- ===== src/Billing/Rights.antt =====
-- Who may record a payment, and for whom.
use rookopg.Prelude.{ℕ, ◌≡◌, ◌≤◌, some, arith, Option-cases, inl, inr, ◌==◌, is_none, ◌&&◌}
use rookopg.Calendar.{Date}
use rookopg.RentCycle.{start_of_day}
use rookopg.Errors.{Result-cases, ok, hide_forbidden}
use rookopg.Iam.{AuthenticatedActor, assert_property_access}
use rookopg.Database.{Property, Tenancy, Db}
use rookopg.Database.Client.{Prisma}
use rookopg.Billing.Repository.{find_tenancy_for_billing}
use rookopg.Billing.Service.{
  RecordPaymentDto, PaymentReceipt, take_payment, assert_access, billing_writers, received_at,
}

module _ (prisma : Prisma) where
  -- A payment is recorded only by someone whom the access check lets act on the property as owner or
  -- manager, for a tenancy of that property, and with a day of receipt that is not in the future.
  take_payment_lem :
      (now : Date) (actor : AuthenticatedActor) (property_id : ℕ) (dto : RecordPaymentDto) (db : Db)
      {receipt : PaymentReceipt}
      → (take_payment prisma now actor property_id dto db).0 ≡ ok receipt
      → (property : Property) × (t : Tenancy) × (received : Date) × (prisma.find_first Property
            (λ p. (p.id == property_id) && is_none p.deleted_at)
            db.properties
          ≡ some property)
        × (assert_property_access actor property.org_id property.id billing_writers ≡ ok tt)
        × (find_tenancy_for_billing prisma dto.tenancy_id db ≡ some t)
        × (t.property_id ≡ property_id)
        × (received_at now dto.received_on ≡ ok received)
        × (start_of_day received ≤ start_of_day now)
  unfolding take_payment assert_access hide_forbidden
  take_payment_lem now actor property_id dto db h =
      elim (Option-cases (
        prisma.find_first Property (λ p. (p.id == property_id) && is_none p.deleted_at)
          db.properties)) [
            | inl missing ↦ ground arith
            | inr (property, there) ↦
                elim (Option-cases (find_tenancy_for_billing prisma dto.tenancy_id db)) [
                  | inl missing ↦ ground arith
                  | inr (t, found) ↦ elim (Result-cases (received_at now dto.received_on)) [
                    | inl (received, when) ↦ (
                      property,
                      t,
                      received,
                      there,
                      ground arith,
                      found,
                      ground arith,
                      when,
                      ground arith,
                    )
                    | inr (e, thrown) ↦ ground arith
                  ]
                ]
          ]

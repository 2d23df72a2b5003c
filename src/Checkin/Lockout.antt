-- ===== src/Checkin/Lockout.antt =====
-- Typed codes are refused while a property is locked out.
use rookopg.Prelude.{ℕ, ◌≡◌, some, arith}
use rookopg.Calendar.{Date}
use rookopg.Errors.{ok, throw, conflict}
use rookopg.Iam.{AuthenticatedActor}
use rookopg.Database.{Db}
use rookopg.Database.Client.{Prisma}
use rookopg.Checkin.Repository.{code_locked_until}
use rookopg.Checkin.Service.{RedeemPassDto, claim_pass, assert_staff_at}

module _ (prisma : Prisma) where
  -- While a property is locked out, a typed code is refused before any pass is looked for, whatever
  -- the code and even beside a token, and nothing changes, so that no guess is counted.
  locked_code_refused :
      (now : Date) (actor : AuthenticatedActor) (property_id : ℕ) (dto : RedeemPassDto) (db : Db)
      (code : ℕ) (until : Date)
      → assert_staff_at prisma actor property_id db ≡ (ok tt, db)
      → dto.short_code ≡ some code
      → code_locked_until prisma now property_id db ≡ some until
      → claim_pass prisma now actor property_id dto db ≡ (
        throw
            (conflict "Too many wrong codes at this property. Scan the QR, or try again shortly."),
        db,
      )
  unfolding claim_pass
  locked_code_refused now actor property_id dto db code until staff typed locked = ground arith

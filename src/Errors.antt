-- ===== src/Errors.antt =====
-- apps/backend/src/common/errors/domain.error.ts: the errors that the domain raises, by class, with
-- their messages; and what a third party throws. A function that may throw returns a `Result`.
use Prim.Native.String.{String}
use rookopg.Prelude.{◌≡◌, refl, Bool, true, false, arith, ◌⊎◌, inl, inr}

pub data UnauthorisedCode : Type 0 where
  otp_invalid otp_expired otp_too_many_attempts refresh_token_invalid refresh_token_reused
        account_suspended :
      UnauthorisedCode

pub data DomainError : Type 0 where
  forbidden : DomainError
  -- the name of what was not found
  not_found : String → DomainError
  conflict : String → DomainError
  -- the exclusion constraint on bed allocations fired
  bed_already_taken : DomainError
  -- Prisma found no row to update or to return
  record_missing : DomainError
  -- a unique index refused a row
  unique_violation : DomainError
  -- a text longer than its column
  value_too_long : DomainError
  -- a number that its column cannot hold
  value_out_of_range : DomainError
  -- a row names another that is not there
  foreign_key_violation : DomainError
  -- a CHECK constraint refused a row
  check_violation : DomainError
  -- 401, with the code of what is wrong
  unauthorised : UnauthorisedCode → DomainError
  rate_limited : DomainError
  -- not an Indian mobile number
  invalid_phone : DomainError
  -- thrown by the payment gateway
  gateway_error : String → DomainError

pub data Result {ℓ} (A : Type ℓ) : Type ℓ where
  ok : A → Result A
  throw : DomainError → Result A

infixl 5 ◌>>=◌ ◌>>◌
abbrev pub ◌>>=◌ {ℓ κ} : {A : Type ℓ} {B : Type κ} → Result A → (A → Result B) → Result B
ok a >>= f = f a
throw e >>= f = throw e

abbrev pub ◌>>◌ {ℓ} : {B : Type ℓ} → Result (Unit {0}) → Result B → Result B
m >> k = m >>= λ _. k

-- What a sequence that succeeds went through.
pub >>=-ok {ℓ κ} :
    {A : Type ℓ} {B : Type κ} {m : Result A} {f : A → Result B} {b : B}
    → m >>= f ≡ ok b
    → (a : A) × (m ≡ ok a) × (f a ≡ ok b)
>>=-ok {m = ok a} h = (a, refl, h)
>>=-ok {m = throw e} h = ground arith

pub Result-cases {ℓ} :
    {A : Type ℓ} (r : Result A) → ((a : A) × (r ≡ ok a)) ⊎ ((e : DomainError) × (r ≡ throw e))
Result-cases (ok a) = inl (a, refl)
Result-cases (throw e) = inr (e, refl)

-- Goes on only if the test holds.
abbrev pub require : Bool → DomainError → Result (Unit {0})
require true e = ok tt
require false e = throw e

-- `catch (error) { if (… error.code === FORBIDDEN) throw new NotFoundError(what); throw error; }`
unfoldable pub hide_forbidden {ℓ} : {A : Type ℓ} → String → Result A → Result A
hide_forbidden what (ok a) = ok a
hide_forbidden what (throw forbidden) = throw (not_found what)
hide_forbidden what (throw e) = throw e

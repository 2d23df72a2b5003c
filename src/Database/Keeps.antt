-- ===== src/Database/Keeps.antt =====
-- What a session keeps of the database, by how it is composed, whether or not it throws.
use rookopg.Prelude.{◌≡◌, refl, Bool, true, false, Option, some, none, inl, inr, if◌then◌else◌}
use rookopg.Errors.{Result, Result-cases, ok, throw, DomainError}
use rookopg.Database.{Db}
use rookopg.Database.Session.{
  Session, continue, ◌>>=◌, pure, lift, reads, transact, transact_with, committed, writes,
  require_s, require_some,
}

abbrev pub Keeps : {A : Type 0} → (Db → Type 0) → Session A → Type 0
Keeps P m = (db : Db) → P db → P (m db).1

module _ (P : Db → Type 0) where
  pub transact-Keeps :
      (t : Db → Result Db) → ((db db' : Db) → P db → t db ≡ ok db' → P db') → Keeps P (transact t)
  transact-Keeps t keeps db h = committed_keeps (t db) refl
    where
      committed_keeps : (r : Result Db) → t db ≡ r → P (committed r db).1
      committed_keeps (ok db') ran = keeps db db' h ran
      committed_keeps (throw e) ran = h

  pub transact_with-Keeps :
      {A : Type 0} (t : Db → Result (A × Db))
      → ((db db' : Db) (a : A) → P db → t db ≡ ok (a, db') → P db')
      → Keeps P (transact_with t)
  transact_with-Keeps t keeps db h = elim (Result-cases (t db)) [
    | inl (r, ran) ↦ rw ran (keeps db r.1 r.0 h ran)
    | inr (e, thrown) ↦ rw thrown h
  ]

  pub writes-Keeps : (f : Db → Db) → ((db : Db) → P db → P (f db)) → Keeps P (writes f)
  writes-Keeps f keeps db h = keeps db h

  pub pure-Keeps : {A : Type 0} (a : A) → Keeps P (pure a)
  pure-Keeps a db h = h

  pub lift-Keeps : {A : Type 0} (r : Result A) → Keeps P (lift r)
  lift-Keeps r db h = h

  pub reads-Keeps : {A : Type 0} (f : Db → A) → Keeps P (reads f)
  reads-Keeps f db h = h

  pub require_s-Keeps : (b : Bool) (e : DomainError) → Keeps P (require_s b e)
  require_s-Keeps true e db h = h
  require_s-Keeps false e db h = h

  pub require_some-Keeps :
      {A : Type 0} (o : Option A) (e : DomainError) → Keeps P (require_some o e)
  require_some-Keeps none e db h = h
  require_some-Keeps (some a) e db h = h

  pub if-Keeps :
      {A : Type 0} (b : Bool) (m k : Session A)
      → Keeps P m
      → Keeps P k
      → Keeps P (if b then m else k)
  if-Keeps true m k keeps keeps' = keeps
  if-Keeps false m k keeps keeps' = keeps'

  continue-Keeps :
      {A B : Type 0} (r : Result A) (f : A → Session B)
      → ((a : A) → Keeps P (f a))
      → Keeps P (continue r f)
  continue-Keeps (ok a) f keeps db h = keeps a db h
  continue-Keeps (throw e) f keeps db h = h

  pub >>=-Keeps :
      {A B : Type 0} (m : Session A) (f : A → Session B)
      → Keeps P m
      → ((a : A) → Keeps P (f a))
      → Keeps P (m >>= f)
  >>=-Keeps m f keeps keeps' db h = continue-Keeps (m db).0 f keeps' (m db).1 (keeps db h)

-- ===== src/Database/Session.antt =====
-- A service's operation: it reads and writes the database, and may throw. What was committed before
-- a throw stays, so the database comes back beside the error.
use rookopg.Prelude.{Option, none, some, Bool, true, false}
use rookopg.Errors.{Result, ok, throw, DomainError}
use rookopg.Database.{Db}

abbrev pub Session : Type 0 → Type 0
Session A = Db → Result A × Db

abbrev pub continue : {A B : Type 0} → Result A → (A → Session B) → Session B
continue (ok a) f db = f a db
continue (throw e) f db = (throw e, db)

infixl 5 ◌>>=◌ ◌>>◌
abbrev pub ◌>>=◌ : {A B : Type 0} → Session A → (A → Session B) → Session B
◌>>=◌ m f db = let (r, db') = m db in continue r f db'

abbrev pub ◌>>◌ : {B : Type 0} → Session (Unit {0}) → Session B → Session B
m >> k = m >>= λ _. k

abbrev pub pure : {A : Type 0} → A → Session A
pure a db = (ok a, db)

abbrev pub fail : {A : Type 0} → DomainError → Session A
fail e db = (throw e, db)

abbrev pub lift : {A : Type 0} → Result A → Session A
lift r db = (r, db)

abbrev pub reads : {A : Type 0} → (Db → A) → Session A
reads f db = (ok (f db), db)

-- A transaction commits its new database, or throws and leaves the old one.
abbrev pub committed : Result Db → Session (Unit {0})
committed (ok db') db = (ok tt, db')
committed (throw e) db = (throw e, db)

abbrev pub transact : (Db → Result Db) → Session (Unit {0})
transact t db = committed (t db) db

abbrev pub writes : (Db → Db) → Session (Unit {0})
writes f db = (ok tt, f db)

abbrev pub require_s : Bool → DomainError → Session (Unit {0})
require_s true e = pure tt
require_s false e = fail e

-- `if (!x) throw …`
abbrev pub require_some : {A : Type 0} → Option A → DomainError → Session A
require_some none e = fail e
require_some (some a) e = pure a

-- A transaction that returns a value as well.
abbrev pub committed_with : {A : Type 0} → Result (A × Db) → Session A
committed_with (ok (a, db')) db = (ok a, db')
committed_with (throw e) db = (throw e, db)

abbrev pub transact_with : {A : Type 0} → (Db → Result (A × Db)) → Session A
transact_with t db = committed_with (t db) db

-- ===== src/Db/Pool.antt =====
-- Code on the connection pool: every statement commits by itself, so an error keeps what is written.
pub mod Frame
use dream_fly_backend.Prelude.{Bool, if◌then◌else◌, Option, none, some}
use dream_fly_backend.Db.Tables.{Db}
use dream_fly_backend.AppError.{AppError, database_error, SqlxError, Result, ok, err}
use dream_fly_backend.Db.Monad.{done, failed, Sql, Tx, transaction}

abbrev pub Pool : Type 0 → Type 0
Pool A = Db → Result A × Db

infixl 5 ◌>>=◌ ◌>>◌
unfoldable pub ◌>>=◌ : {A B : Type 0} → Pool A → (A → Pool B) → Pool B
◌>>=◌ m f db = let r = m db in elim r.0 [ ok a ↦ f a r.1 | err e ↦ (err e, r.1) ]

abbrev pub ◌>>◌ : {B : Type 0} → Pool (Unit {0}) → Pool B → Pool B
m >> k = m >>= λ _. k

abbrev pub pure : {A : Type 0} → A → Pool A
pure a db = (ok a, db)

abbrev pub raise : {A : Type 0} → AppError → Pool A
raise e db = (err e, db)

unfoldable pub lift : {A : Type 0} → Result A → Pool A
lift r db = (r, db)

unfoldable pub some_or : {A : Type 0} → Option A → AppError → Pool A
some_or o e db = elim o [ some a ↦ (ok a, db) | none ↦ (err e, db) ]

unfoldable pub reject_if : Bool → AppError → Pool (Unit {0})
reject_if c e db = if c then (err e, db) else (ok tt, db)

unfoldable pub query_or : {A : Type 0} → (SqlxError → AppError) → Sql A → Pool A
query_or f m db = elim (m db) [ done a db' ↦ (ok a, db') | failed e ↦ (err (f e), db) ]

abbrev pub query : {A : Type 0} → Sql A → Pool A
query m = query_or database_error m

-- A transaction of its own.
abbrev pub in_transaction : {A : Type 0} → Tx A → Pool A
in_transaction body = transaction body

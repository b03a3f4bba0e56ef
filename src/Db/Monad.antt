-- ===== src/Db/Monad.antt =====
-- Statements and transactions: results, errors, and what a rollback drops.
use dream_fly_backend.Prelude.{if◌then◌else◌, Bool, ◌+◌, Option, none, some}
use dream_fly_backend.Base.{Uuid}
use dream_fly_backend.Db.Tables.{Db}
use dream_fly_backend.AppError.{AppError, database_error, SqlxError, Result, ok, err}

-- One statement: its result and the new state, or the error that PostgreSQL reports.
pub data SqlOut (A : Type 0) : Type 0 where
  done : A → Db → SqlOut A
  failed : SqlxError → SqlOut A

abbrev pub Sql : Type 0 → Type 0
Sql A = Db → SqlOut A

-- Code inside a transaction. An error carries no state: the transaction is rolled back.
pub data TxOut (A : Type 0) : Type 0 where
  committed : A → Db → TxOut A
  rolled_back : AppError → TxOut A

abbrev pub Tx : Type 0 → Type 0
Tx A = Db → TxOut A

infixl 5 ◌>>=◌ ◌>>◌
unfoldable pub ◌>>=◌ : {A B : Type 0} → Tx A → (A → Tx B) → Tx B
◌>>=◌ m f db = elim (m db) [ committed a db' ↦ f a db' | rolled_back e ↦ rolled_back e ]

abbrev pub ◌>>◌ : {B : Type 0} → Tx (Unit {0}) → Tx B → Tx B
m >> k = m >>= λ _. k

abbrev pub pure : {A : Type 0} → A → Tx A
pure a db = committed a db

abbrev pub raise : {A : Type 0} → AppError → Tx A
raise e db = rolled_back e

unfoldable pub lift : {A : Type 0} → Result A → Tx A
lift r db = elim r [ ok a ↦ committed a db | err e ↦ rolled_back e ]

unfoldable pub some_or : {A : Type 0} → Option A → AppError → Tx A
some_or o e db = elim o [ some a ↦ committed a db | none ↦ rolled_back e ]

-- `if c { return Err(e); }`
unfoldable pub reject_if : Bool → AppError → Tx (Unit {0})
reject_if c e db = if c then rolled_back e else committed tt db

-- A statement under `.map_err(f)?`; `?` alone is `AppError::Database`.
unfoldable pub query_or : {A : Type 0} → (SqlxError → AppError) → Sql A → Tx A
query_or f m db = elim (m db) [ done a db' ↦ committed a db' | failed e ↦ rolled_back (f e) ]

abbrev pub query : {A : Type 0} → Sql A → Tx A
query m = query_or database_error m

-- A `SELECT`.
abbrev pub select : {A : Type 0} → (Db → A) → Sql A
select f db = done (f db) db

-- `Uuid::now_v7()` and `gen_random_uuid()`: the next id of the supply.
unfoldable pub new_uuid : Sql Uuid
new_uuid db = done (db.uuids db.drawn) (record db { drawn = db.drawn + 1 })

-- `db.begin()`, the body, and `tx.commit()`, or the rollback when the transaction is dropped.
unfoldable pub transaction : {A : Type 0} → Tx A → Db → Result A × Db
transaction body db = elim (body db) [ committed a db' ↦ (ok a, db') | rolled_back e ↦ (err e, db) ]

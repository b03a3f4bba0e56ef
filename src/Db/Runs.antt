-- ===== src/Db/Runs.antt =====
-- What a transaction does, one step at a time, when the result of the step is known.
use dream_fly_backend.Prelude.{Bool, true, false, ◌≡◌, refl, Option, none, some}
use dream_fly_backend.AppError.{AppError, SqlxError, Result, ok, err}
use dream_fly_backend.Db.Tables.{Db}
use dream_fly_backend.Db.Monad.{
  done, failed, Sql, committed, rolled_back, Tx, TxOut, ◌>>=◌, some_or, reject_if, query_or,
  transaction,
}

module _ {A B : Type 0} (m : Tx A) (f : A → Tx B) (db : Db) where
  pub >>=-run : {a : A} {db' : Db} → m db ≡ committed a db' → (m >>= f) db ≡ f a db'
  unfolding ◌>>=◌
  >>=-run e = rw (e, ◌>>=◌) refl

  pub >>=-stop : {x : AppError} → m db ≡ rolled_back x → (m >>= f) db ≡ rolled_back x
  unfolding ◌>>=◌
  >>=-stop e = rw (e, ◌>>=◌) refl

module _ {A B : Type 0} (x : SqlxError → AppError) (m : Sql A) (f : A → Tx B) (db : Db) where
  pub query-run : {a : A} {db' : Db} → m db ≡ done a db' → (query_or x m >>= f) db ≡ f a db'
  unfolding ◌>>=◌ query_or
  query-run e = rw (e, ◌>>=◌, query_or) refl

  pub query-stop : {e : SqlxError} → m db ≡ failed e → (query_or x m >>= f) db ≡ rolled_back (x e)
  unfolding ◌>>=◌ query_or
  query-stop e = rw (e, ◌>>=◌, query_or) refl

module _ {A B : Type 0} (o : Option A) (x : AppError) (f : A → Tx B) (db : Db) where
  pub some_or-run : {a : A} → o ≡ some a → (some_or o x >>= f) db ≡ f a db
  unfolding ◌>>=◌ some_or
  some_or-run e = rw (e, ◌>>=◌, some_or) refl

  pub some_or-stop : o ≡ none → (some_or o x >>= f) db ≡ rolled_back x
  unfolding ◌>>=◌ some_or
  some_or-stop e = rw (e, ◌>>=◌, some_or) refl

module _ {B : Type 0} (c : Bool) (x : AppError) (f : Unit {0} → Tx B) (db : Db) where
  pub reject_if-run : c ≡ false → (reject_if c x >>= f) db ≡ f tt db
  unfolding ◌>>=◌ reject_if
  reject_if-run e = rw (e, ◌>>=◌, reject_if) refl

  pub reject_if-stop : c ≡ true → (reject_if c x >>= f) db ≡ rolled_back x
  unfolding ◌>>=◌ reject_if
  reject_if-stop e = rw (e, ◌>>=◌, reject_if) refl

module _ {A : Type 0} (body : Tx A) (db : Db) where
  pub transaction-run :
      {a : A} {db' : Db} → body db ≡ committed a db' → transaction body db ≡ (ok a, db')
  unfolding transaction
  transaction-run e = rw (e, transaction) refl

  pub transaction-stop :
      {x : AppError} → body db ≡ rolled_back x → transaction body db ≡ (err x, db)
  unfolding transaction
  transaction-stop e = rw (e, transaction) refl

-- The outcome of a transaction that started on `db`.
abbrev pub kept : {A : Type 0} → Db → TxOut A → Result A × Db
kept db (committed a db') = (ok a, db')
kept db (rolled_back e) = (err e, db)

pub transaction-kept :
    {A : Type 0} (body : Tx A) (db : Db) (r : TxOut A)
    → body db ≡ r
    → transaction body db ≡ kept db r
unfolding transaction
transaction-kept body db (committed a db') e = rw (e, transaction) refl
transaction-kept body db (rolled_back x) e = rw (e, transaction) refl

-- ===== src/Db/Pool/Frame.antt =====
-- What code on the pool keeps, errors included, from what each of its statements keeps.
use dream_fly_backend.Prelude.{Bool, true, false, Option, none, some, inl, inr}
use dream_fly_backend.AppError.{AppError, SqlxError, Result, Result-cases}
use dream_fly_backend.Db.Frame.{IsFrame, Respects, RespectsSql}
use dream_fly_backend.Db.Monad.{Sql, Tx}
use dream_fly_backend.Db.Pool.{
  Pool, ◌>>=◌, pure, lift, some_or, reject_if, query_or, in_transaction,
}
use dream_fly_backend.Db.Runs.{transaction-run, transaction-stop}
use dream_fly_backend.Db.Steps.{SqlOut-cases, TxOut-cases}
use dream_fly_backend.Db.Tables.{Db}

-- Every run of the code is in the relation.
abbrev pub RespectsPool : {A : Type 0} → (Db → Db → Type 0) → Pool A → Type 0
RespectsPool R m = (db : Db) → R db (m db).1

module _ {R : Db → Db → Type 0} (frame : IsFrame R) where
  pub >>=-RespectsPool :
      {A B : Type 0} (m : Pool A) (f : A → Pool B)
      → RespectsPool R m
      → ((a : A) → RespectsPool R (f a))
      → RespectsPool R (m >>= f)
  unfolding ◌>>=◌
  >>=-RespectsPool m f h k db = elim (Result-cases (m db).0) [
    | inl (a, e) ↦ rw (e, ◌>>=◌) (frame.go db (m db).1 (f a (m db).1).1 (h db) (k a (m db).1))
    | inr (x, e) ↦ rw (e, ◌>>=◌) (h db)
  ]

  pub pure-RespectsPool : {A : Type 0} (a : A) → RespectsPool R (pure a)
  pure-RespectsPool a db = frame.stay db

  pub lift-RespectsPool : {A : Type 0} (r : Result A) → RespectsPool R (lift r)
  unfolding lift
  lift-RespectsPool r db = frame.stay db

  pub some_or-RespectsPool :
      {A : Type 0} (o : Option A) (x : AppError) → RespectsPool R (some_or o x)
  unfolding some_or
  some_or-RespectsPool none x db = frame.stay db
  some_or-RespectsPool (some a) x db = frame.stay db

  pub reject_if-RespectsPool : (c : Bool) (x : AppError) → RespectsPool R (reject_if c x)
  unfolding reject_if
  reject_if-RespectsPool true x db = frame.stay db
  reject_if-RespectsPool false x db = frame.stay db

  pub query-RespectsPool :
      {A : Type 0} (x : SqlxError → AppError) (m : Sql A)
      → RespectsSql R m
      → RespectsPool R (query_or x m)
  unfolding query_or
  query-RespectsPool x m h db = elim (SqlOut-cases (m db)) [
    | inl (a, db', e) ↦ rw (e, query_or) (h db a db' e)
    | inr (f, e) ↦ rw (e, query_or) (frame.stay db)
  ]

  pub in_transaction-RespectsPool :
      {A : Type 0} (body : Tx A) → Respects R body → RespectsPool R (in_transaction body)
  in_transaction-RespectsPool body h db = elim (TxOut-cases (body db)) [
    | inl (a, db', e) ↦ rw (transaction-run body db e) (h db a db' e)
    | inr (x, e) ↦ rw (transaction-stop body db e) (frame.stay db)
  ]

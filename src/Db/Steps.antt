-- ===== src/Db/Steps.antt =====
-- What a transaction has done when it commits, one step at a time.
use dream_fly_backend.Prelude.{
  Bool, true, false, ◌≡◌, refl, ap, sym, ◌∙◌, if◌then◌else◌, Option, none, some, ◌⊎◌, inl, inr,
}
use dream_fly_backend.AppError.{AppError, SqlxError, Result, ok, err}
use dream_fly_backend.Db.Tables.{Db}
use dream_fly_backend.Db.Monad.{
  SqlOut, done, failed, Sql, TxOut, committed, rolled_back, Tx, ◌>>=◌, lift, some_or, reject_if,
  query_or, transaction,
}

module _ {A : Type 0} where
  pub SqlOut-cases :
      (r : SqlOut A) → ((a : A) × (db : Db) × (r ≡ done a db)) ⊎ ((e : SqlxError) × (r ≡ failed e))
  SqlOut-cases (done a db) = inl (a, db, refl)
  SqlOut-cases (failed e) = inr (e, refl)

  pub TxOut-cases :
      (r : TxOut A)
      → ((a : A) × (db : Db) × (r ≡ committed a db)) ⊎ ((e : AppError) × (r ≡ rolled_back e))
  TxOut-cases (committed a db) = inl (a, db, refl)
  TxOut-cases (rolled_back e) = inr (e, refl)

  pub query_or-committed :
      (f : SqlxError → AppError) (m : Sql A) (db : Db) {a : A} {db' : Db}
      → query_or f m db ≡ committed a db'
      → m db ≡ done a db'
  unfolding query_or
  query_or-committed f m db h = elim (SqlOut-cases (m db)) [
    | inl (a, db', e) ↦ let h' = rw (e, query_or) at h in rw e (cc h')
    | inr (x, e) ↦ let h' = rw (e, query_or) at h in cc h'
  ]

  pub some_or-committed :
      (o : Option A) (x : AppError) (db : Db) {a : A} {db' : Db}
      → some_or o x db ≡ committed a db'
      → (o ≡ some a) × (db' ≡ db)
  unfolding some_or
  some_or-committed none x db h = cc
  some_or-committed (some a) x db h = (cc, cc)

  pub lift-committed :
      (r : Result A) (db : Db) {a : A} {db' : Db}
      → lift r db ≡ committed a db'
      → (r ≡ ok a) × (db' ≡ db)
  unfolding lift
  lift-committed (ok a) db h = (cc, cc)
  lift-committed (err e) db h = cc

pub reject_if-committed :
    (c : Bool) (x : AppError) (db : Db) {u : Unit} {db' : Db}
    → reject_if c x db ≡ committed u db'
    → (c ≡ false) × (db' ≡ db)
unfolding reject_if
reject_if-committed true x db h = cc
reject_if-committed false x db h = (refl, cc)

pub >>=-committed :
    {A B : Type 0} (m : Tx A) (f : A → Tx B) (db : Db) {b : B} {db'' : Db}
    → (m >>= f) db ≡ committed b db''
    → (a : A) × (db' : Db) × (m db ≡ committed a db') × (f a db' ≡ committed b db'')
unfolding ◌>>=◌
>>=-committed m f db h = elim (TxOut-cases (m db)) [
  | inl (a, db', e) ↦ (a, db', e, rw (e, ◌>>=◌) at h)
  | inr (x, e) ↦ let h' = rw (e, ◌>>=◌) at h in cc h'
]

-- The same for a step and what follows it.
module _ {A B : Type 0} where
  pub query-then :
      (x : SqlxError → AppError) (m : Sql A) (f : A → Tx B) (db : Db) {b : B} {db'' : Db}
      → (query_or x m >>= f) db ≡ committed b db''
      → (a : A) × (db' : Db) × (m db ≡ done a db') × (f a db' ≡ committed b db'')
  query-then x m f db h =
      let (a, db', e, r) = >>=-committed (query_or x m) f db h in
      (a, db', query_or-committed x m db e, r)

  pub some_or-then :
      (o : Option A) (x : AppError) (f : A → Tx B) (db : Db) {b : B} {db'' : Db}
      → (some_or o x >>= f) db ≡ committed b db''
      → (a : A) × (o ≡ some a) × (f a db ≡ committed b db'')
  some_or-then none x f db h = unfold some_or ◌>>=◌ in cc h
  some_or-then (some a) x f db h = (a, refl, unfold some_or ◌>>=◌ in h)

  pub lift-then :
      (r : Result A) (f : A → Tx B) (db : Db) {b : B} {db'' : Db}
      → (lift r >>= f) db ≡ committed b db''
      → (a : A) × (r ≡ ok a) × (f a db ≡ committed b db'')
  lift-then (ok a) f db h = (a, refl, unfold lift ◌>>=◌ in h)
  lift-then (err e) f db h = unfold lift ◌>>=◌ in cc h

module _ {B : Type 0} where
  pub reject_if-then :
      (c : Bool) (x : AppError) (f : Unit {0} → Tx B) (db : Db) {b : B} {db'' : Db}
      → (reject_if c x >>= f) db ≡ committed b db''
      → (c ≡ false) × (f tt db ≡ committed b db'')
  reject_if-then true x f db h = unfold reject_if ◌>>=◌ in cc h
  reject_if-then false x f db h = (refl, unfold reject_if ◌>>=◌ in h)

pub transaction-committed :
    {A : Type 0} (body : Tx A) (db : Db) {a : A} {db' : Db}
    → transaction body db ≡ (ok a, db')
    → body db ≡ committed a db'
unfolding transaction
transaction-committed body db h = elim (TxOut-cases (body db)) [
  | inl (a, db', e) ↦ let h' = rw (e, transaction) at h in rw e (cc h')
  | inr (x, e) ↦ let h' = rw (e, transaction) at h in cc h'
]

-- The end of a run, a run at an equal state, and a branch.
pub pure-state :
    {A : Type 0} {a b : A} (db : Db) {db' : Db}
    → committed a db ≡ committed b db'
    → (b ≡ a) × (db' ≡ db)
pure-state db h = (cc h, cc h)

pub at_state : {A : Type 0} (m : Tx A) {a b : Db} {r : TxOut A} → a ≡ b → m a ≡ r → m b ≡ r
at_state m e h = ap m (sym e) ∙ h

pub if-branch :
    {A : Type 0} (c : Bool) (m k : Tx A) (db : Db) {r : TxOut A}
    → (if c then m else k) db ≡ r
    → ((c ≡ true) × (m db ≡ r)) ⊎ ((c ≡ false) × (k db ≡ r))
if-branch true m k db h = inl (refl, h)
if-branch false m k db h = inr (refl, h)

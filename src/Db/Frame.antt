-- ===== src/Db/Frame.antt =====
-- What a whole transaction keeps, from what each statement keeps: relations of the state before and
-- after, put together along the structure of the code.
use dream_fly_backend.Prelude.{Bool, ◌≡◌, refl, ◌∙◌, Option, []}
use dream_fly_backend.AppError.{AppError, SqlxError, Result}
use dream_fly_backend.Db.Tables.{Db}
use dream_fly_backend.Db.Monad.{
  done, Sql, committed, Tx, ◌>>=◌, lift, some_or, reject_if, query_or, select,
}
use dream_fly_backend.Db.Steps.{
  >>=-committed, query_or-committed, some_or-committed, lift-committed, reject_if-committed,
}

-- A relation between the state before and the state after.
pub record IsFrame (R : Db → Db → Type 0) : Type 0 where
  pub stay : (db : Db) → R db db
  pub go : (a b c : Db) → R a b → R b c → R a c

-- Every commit of the code is in the relation.
abbrev pub Respects : {A : Type 0} → (Db → Db → Type 0) → Tx A → Type 0
Respects {A} R m = (db : Db) (a : A) (db' : Db) → m db ≡ committed a db' → R db db'

abbrev pub RespectsSql : {A : Type 0} → (Db → Db → Type 0) → Sql A → Type 0
RespectsSql {A} R m = (db : Db) (a : A) (db' : Db) → m db ≡ done a db' → R db db'

module _ {R : Db → Db → Type 0} (frame : IsFrame R) where
  stays : {db db' : Db} → db' ≡ db → R db db'
  stays {db} e = rw e (frame.stay db)

  pub >>=-Respects :
      {A B : Type 0} {m : Tx A} {f : A → Tx B}
      → Respects R m
      → ((a : A) → Respects R (f a))
      → Respects R (m >>= f)
  >>=-Respects h k db b db'' e =
      let (a, db', e₁, e₂) = >>=-committed _ _ db e in
      frame.go db db' db'' (h db a db' e₁) (k a db' b db'' e₂)

  pub pure-Respects : {A : Type 0} (a : A) → Respects R (λ db. committed a db)
  pure-Respects a db b db' e = stays cc

  pub lift-Respects : {A : Type 0} (r : Result A) → Respects R (lift r)
  lift-Respects r db b db' e = stays (lift-committed r db e).1

  pub some_or-Respects : {A : Type 0} (o : Option A) (x : AppError) → Respects R (some_or o x)
  some_or-Respects o x db b db' e = stays (some_or-committed o x db e).1

  pub reject_if-Respects : (c : Bool) (x : AppError) → Respects R (reject_if c x)
  reject_if-Respects c x db b db' e = stays (reject_if-committed c x db e).1

  pub query-Respects :
      {A : Type 0} (x : SqlxError → AppError) (m : Sql A)
      → RespectsSql R m
      → Respects R (query_or x m)
  query-Respects x m h db a db' e = h db a db' (query_or-committed _ _ db e)

  pub select-Respects : {A : Type 0} (f : Db → A) → RespectsSql R (select f)
  select-Respects f db b db' e = stays cc

-- A part of the state that stays as it is.
abbrev pub Same : {X : Type 0} → (Db → X) → Db → Db → Type 0
Same f db db' = f db' ≡ f db

pub Same-IsFrame : {X : Type 0} (f : Db → X) → IsFrame (Same f)
Same-IsFrame f = record { stay = λ db. refl; go = λ a b c p q. q ∙ p }

-- A property that is kept.
abbrev pub Keeps : (Db → Type 0) → Db → Db → Type 0
Keeps P db db' = P db → P db'

pub Keeps-IsFrame : (P : Db → Type 0) → IsFrame (Keeps P)
Keeps-IsFrame P = record { stay = λ db p. p; go = λ a b c p q h. q (p h) }

-- The state without the tables of one region.
abbrev pub but_points : Db → Db
but_points db = record db { users = []; point_ledger = [] }

abbrev pub but_products : Db → Db
but_products db = record db { products = [] }

abbrev pub but_seats : Db → Db
but_seats db = record db { enrolments = []; leave_requests = []; drawn = 0 }

abbrev pub but_orders : Db → Db
but_orders db = record db {
  orders = [];
  order_items = [];
  subscriptions = [];
  cart_items = [];
  order_idempotency = [];
  outbox = [];
  notifications = [];
  drawn = 0;
}

-- A property that does not read a region is kept by what writes only there.
pub Same-Keeps :
    (w : Db → Db) (P : Db → Type 0)
    → ((db : Db) → P (w db) → P db)
    → ((db : Db) → P db → P (w db))
    → (db db' : Db) → Same w db db'
    → Keeps P db db'
Same-Keeps w P from into db db' e p = from db' (rw e (into db p))

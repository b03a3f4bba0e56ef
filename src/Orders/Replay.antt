-- ===== src/Orders/Replay.antt =====
-- The order that a checkout with a key has placed is found again by its key.
pub mod Later
pub mod Endings
pub mod Committed
pub mod Named
use text.Mathlib.TextPositions.{eq_refl}
use dream_fly_backend.Prelude.{
  ℕ, ◌+◌, ◌≤◌, ◌≡◌, refl, ◌∙◌, sym, ap, String, Bool, true, false, not, ◌||◌, Option, none, some,
  List, [], ◌∷◌, ◌++◌, map, arith, find, any, ◌==◌, ==_refl, if◌then◌else◌, Bool-cases, inl, inr,
}
use dream_fly_backend.Base.{Uuid, Instant}
use dream_fly_backend.AppError.{Result, ok, err}
use dream_fly_backend.Db.{
  Db, Same, Same-IsFrame, Respects, committed, rolled_back, done, >>=-committed, query-then,
  query_or-committed, some_or-then, lift-then, IsFrame,
}
use dream_fly_backend.Orders.Fulfilment.{PurchasableCart}
use dream_fly_backend.Orders.Idempotency.{
  IdempotencyKey, Recorded, fresh, twin_won, record_key, recorded, insert_idempotency_tx,
  find_idempotency, is_key,
}
use dream_fly_backend.Orders.Locks.{CheckoutLocks}
use dream_fly_backend.Orders.Model.{Order}
use dream_fly_backend.Orders.Placing.{
  Ending, placed, empty_cart, replayed, announce, insert_domain_event_tx, place_order_tx,
}
use dream_fly_backend.Orders.Pricing.{PricingOutcome}
use dream_fly_backend.Orders.Repository.{NewOrder, create_order, new_order, is_order}
use dream_fly_backend.Orders.Request.{CheckoutIntent}

-- The next ids are those of no order yet.
abbrev pub IsFresh : Db → Type 0
IsFresh db = (n : ℕ) → db.drawn ≤ n → any (is_order (db.uuids n)) db.orders ≡ false

find_last :
    (id : Uuid) (os : List Order) (o : Order)
    → any (is_order id) os ≡ false
    → o.id ≡ id
    → find (is_order id) (os ++ o ∷ []) ≡ some o
find_last id [] o h e = rw (e, ==_refl id) refl
find_last id (x ∷ os) o h e = elim (Bool-cases (x.id == id)) [
  | inl hit ↦ absurd (ground (arith, hit))
  | inr miss ↦ rw miss (find_last id os o (ground (arith, miss)) e)
]

pub create_order-found :
    (new : NewOrder) (db : Db) {o : Order} {db' : Db}
    → IsFresh db
    → create_order new db ≡ done o db'
    → find (is_order o.id) db'.orders ≡ some o
unfolding create_order
create_order-found new db {o} {db'} h e =
    let row : o ≡ new_order (db.uuids db.drawn) new = ground (arith, e) in
    let state : db'.orders ≡ db.orders ++ o ∷ [] = ground (arith, e) in
    rw state (find_last o.id db.orders o (rw row (h db.drawn (omega arith))) refl)

pub record_key-found :
    (user : Uuid) (key : IdempotencyKey) (order : Uuid) (db db' : Db)
    → recorded user key db (insert_idempotency_tx user key.key order db) ≡ committed fresh db'
    → (find_idempotency user key.key db' ≡ some order) × (db'.orders ≡ db.orders)
unfolding insert_idempotency_tx find_idempotency
record_key-found user key order db db' e =
    elim (Bool-cases (any (is_key user key.key) db.order_idempotency)) [
      | inl twice ↦ absurd (ground (arith, twice))
      | inr once ↦
          let self = ==_refl user in
          let text = eq_refl key.key in
          let first : db'.order_idempotency
              ≡ record { user_id = user; key = key.key; order_id = order } ∷ db.order_idempotency =
            ground (arith, e, once) in
          (rw (first, self, text) refl, ground (arith, e, once))
    ]

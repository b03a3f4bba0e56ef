-- ===== src/Orders/Replay/Endings.antt =====
-- How the transaction of a checkout with a key ends.
use dream_fly_backend.Prelude.{
  ◌+◌, ◌≡◌, refl, ap, String, Option, some, [], ◌∷◌, ◌++◌, arith, find, any, Bool-cases, inl, inr,
}
use dream_fly_backend.Base.{Uuid}
use dream_fly_backend.Db.{
  Db, order_created, but_products, Same, committed, done, >>=-committed, query-then, some_or-then,
  new_uuid,
}
use dream_fly_backend.Orders.Idempotency.{
  IdempotencyKey, Recorded, fresh, twin_won, recorded, insert_idempotency_tx, find_idempotency,
  is_key,
}
use dream_fly_backend.Orders.Locks.{CheckoutLocks, acquire_checkout_locks}
use dream_fly_backend.Orders.Model.{Order}
use dream_fly_backend.Orders.Placing.{
  Ending, placed, empty_cart, replayed, announce, insert_domain_event_tx,
}
use dream_fly_backend.Orders.Replay.{IsFresh, record_key-found}
use dream_fly_backend.Orders.Repository.{is_order}
use dream_fly_backend.Points.Service.{lock_balance_tx}

-- The key leads to the order, and the order's id to its row.
pub record IsRecorded (user : Uuid) (key : IdempotencyKey) (order : Order) (db : Db) : Type 0 where
  pub by_key : find_idempotency user key.key db ≡ some order.id
  pub by_id : find (is_order order.id) db.orders ≡ some order

pub IsFresh-next :
    (db d₁ d₂ : Db)
    → Same but_products db d₁
    → d₂ ≡ record d₁ { drawn = d₁.drawn + 1 }
    → IsFresh db
    → IsFresh d₂
IsFresh-next db d₁ d₂ same next h = rw next λ n le.
    let drawn : d₁.drawn ≡ db.drawn = ap (λ d. d.drawn) same in
    rw (ap (λ d. d.uuids) same, ap (λ d. d.orders) same) (h n (omega arith))

announce-placed :
    (order o : Order) (correlation : Option String) (r : Recorded) (db db' : Db)
    → announce order correlation r db ≡ committed (placed o) db'
    → (r ≡ fresh)
      × (o ≡ order)
      × (db'.orders ≡ db.orders)
      × (db'.order_idempotency ≡ db.order_idempotency)
unfolding insert_domain_event_tx
announce-placed order o correlation fresh db db' e =
    let (u, db₁, wrote, e₁) = query-then _ _ _ db e in
    let state : db' ≡ record db { outbox = db.outbox ++ order_created order correlation ∷ [] } =
      cc in
    (refl, cc, rw state refl, rw state refl)
announce-placed order o correlation (twin_won user key) db db' e = ground (arith, e)

pub new_uuid-next :
    (d₁ d₂ : Db) {id : Uuid} → new_uuid d₁ ≡ done id d₂ → d₂ ≡ record d₁ { drawn = d₁.drawn + 1 }
unfolding new_uuid
new_uuid-next d₁ d₂ e = cc

recorded-twin :
    (user u : Uuid) (key k : IdempotencyKey) (order : Uuid) (db db' : Db)
    → recorded user key db (insert_idempotency_tx user key.key order db)
      ≡ committed (twin_won u k) db'
    → (u ≡ user) × (k ≡ key)
unfolding insert_idempotency_tx
recorded-twin user u key k order db db' e =
    elim (Bool-cases (any (is_key user key.key) db.order_idempotency)) [
      | inl twice ↦ let e' = rw twice at e in (cc, cc)
      | inr once ↦ absurd (ground (arith, e, once))
    ]

-- What an ending says of the buyer and of the key.
abbrev pub EndsFor : Uuid → IdempotencyKey → Ending → Db → Type 0
EndsFor user key (placed o) db = IsRecorded user key o db
EndsFor user key (empty_cart buyer) db = buyer.user_id ≡ user
EndsFor user key (replayed u k) db = (u ≡ user) × (k ≡ key)

-- The end of the transaction, from the insert of the order on.
pub recorded_at :
    (user : Uuid) (key : IdempotencyKey) (order : Order) (ending : Ending)
    (correlation : Option String) (r : Recorded) (d₃ d₈ d₉ db' : Db)
    → find (is_order order.id) d₃.orders ≡ some order
    → d₈.orders ≡ d₃.orders
    → recorded user key d₈ (insert_idempotency_tx user key.key order.id d₈) ≡ committed r d₉
    → announce order correlation r d₉ ≡ committed ending db'
    → EndsFor user key ending db'
unfolding find_idempotency
recorded_at user key order (placed o) correlation r d₃ d₈ d₉ db' found later wrote told =
    let (is, same, kept, keys) = announce-placed order o correlation r d₉ db' told in
    let wrote' : recorded user key d₈ (insert_idempotency_tx user key.key order.id d₈)
        ≡ committed fresh d₉ =
      rw (← is) wrote in
    let (by_key, orders) = record_key-found user key order.id d₈ d₉ wrote' in
    record { by_key = rw (same, keys) by_key; by_id = rw (same, kept, orders, later) found }
recorded_at user key order (empty_cart b) correlation fresh d₃ d₈ d₉ db' found later wrote told =
    let (u, db₁, w, e) = query-then _ _ _ d₉ told in absurd (ground (arith, e))
recorded_at user key order (empty_cart b) correlation (twin_won u k) d₃ d₈ d₉ db' found later wrote
      told =
    absurd (ground (arith, told))
recorded_at user key order (replayed v l) correlation fresh d₃ d₈ d₉ db' found later wrote told =
    let (u, db₁, w, e) = query-then _ _ _ d₉ told in absurd (ground (arith, e))
recorded_at user key order (replayed v l) correlation (twin_won u k) d₃ d₈ d₉ db' found later wrote
      told =
    let (who, what) = recorded-twin user u key k order.id d₈ d₉ wrote in (cc, cc)

pub acquire_checkout_locks-user :
    (user : Uuid) (db : Db) {locks : CheckoutLocks} {db' : Db}
    → acquire_checkout_locks user db ≡ committed locks db'
    → locks.balance.user_id ≡ user
unfolding acquire_checkout_locks lock_balance_tx
acquire_checkout_locks-user user db e =
    let (balance, d₁, p₁, e₁) = >>=-committed _ _ db e in
    let (found, d₂, p₂, e₂) = query-then _ _ _ db p₁ in
    let (b, is, e₃) = some_or-then _ _ _ d₂ e₂ in
    let (targets, d₃, p₃, e₄) = query-then _ _ _ d₁ e₁ in
    let (products, d₄, p₄, e₅) = >>=-committed _ _ d₃ e₄ in
    let (courses, d₅, p₅, e₆) = query-then _ _ _ d₄ e₅ in cc

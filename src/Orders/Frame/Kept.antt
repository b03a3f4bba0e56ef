-- ===== src/Orders/Frame/Kept.antt =====
-- A recorded order stays: its key leads to it, and only its status changes.
use text.Mathlib.TextEquality.{eq_iff}
use dream_fly_backend.Prelude.{
  ◌≡◌, refl, ap, Bool, false, Option, none, some, List, [], ◌∷◌, ◌++◌, find, any, ◌==◌, ==_iff,
  arith, Bool-cases, inl, inr,
}
use dream_fly_backend.Base.{Uuid}
use dream_fly_backend.Cart.Repository.{clear_cart}
use dream_fly_backend.Db.{
  Db, IdempotencyRow, Keeps, Keeps-IsFrame, RespectsSql, Respects, committed, new_uuid,
}
use dream_fly_backend.Orders.Checkout.{deliver}
use dream_fly_backend.Orders.Frame.{IsShop}
use dream_fly_backend.Orders.Idempotency.{
  IdempotencyKey, Recorded, record_key, recorded, insert_idempotency_tx, find_idempotency, is_key,
}
use dream_fly_backend.Orders.Model.{Order, OrderStatus}
use dream_fly_backend.Orders.Placing.{insert_domain_event_tx}
use dream_fly_backend.Orders.Repository.{
  NewOrder, create_order, create_order_items, update_status_tx, set_status, is_order,
}
use dream_fly_backend.Points.Service.Ledger.{apply_delta_tx-IsApplied}
use dream_fly_backend.Subscriptions.Repository as SubscriptionRows

-- The key leads to the order, and the order's row is as it was but for its status.
pub record IsKept (user : Uuid) (key : IdempotencyKey) (order : Order) (db : Db) : Type 0 where
  pub by_key : find_idempotency user key.key db ≡ some order.id
  pub status : OrderStatus
  pub by_id : find (is_order order.id) db.orders ≡ some (record order { status = status })

find-append :
    {A : Type 0} (p : A → Bool) (xs ys : List A) {x : A}
    → find p xs ≡ some x
    → find p (xs ++ ys) ≡ some x
find-append p [] ys h = absurd (ground (arith, h))
find-append p (y ∷ xs) ys h = elim (Bool-cases (p y)) [
  | inl hit ↦ rw hit (rw hit at h)
  | inr miss ↦ rw miss (find-append p xs ys (rw miss at h))
]

find-set_status :
    (id id' : Uuid) (order : Order) (s t : OrderStatus) (os : List Order)
    → find (is_order id) os ≡ some (record order { status = s })
    → (s' : OrderStatus) × (find (is_order id) (set_status id' t os)
        ≡ some (record order { status = s' }))
unfolding set_status
find-set_status id id' order s t [] h = absurd (ground (arith, h))
find-set_status id id' order s t (o ∷ os) h = elim (Bool-cases (o.id == id')) [
  | inl target ↦ elim (Bool-cases (o.id == id)) [
    | inl mine ↦
        let h' = rw mine at h in
        let is : o ≡ record order { status = s } = cc h' in
        (t, rw (target, mine) (ap (λ (x : Order). some (record x { status = t })) is))
    | inr other ↦ (s, rw (target, other) (rw other at h))
  ]
  | inr spared ↦ elim (Bool-cases (o.id == id)) [
    | inl mine ↦ (s, rw (spared, mine) (rw mine at h))
    | inr other ↦
        let rest = find-set_status id id' order s t os (rw other at h) in
        (rest.0, rw (spared, other) rest.1)
  ]
]

any-find : {A : Type 0} (p : A → Bool) (xs : List A) → any p xs ≡ false → find p xs ≡ none
any-find p [] h = refl
any-find p (x ∷ xs) h = elim (Bool-cases (p x)) [
  | inl hit ↦ absurd (ground (arith, h, hit))
  | inr miss ↦ rw miss (any-find p xs (ground (arith, h, miss)))
]

module _ (user : Uuid) (key : IdempotencyKey) (order : Order) where
  abbrev Kept : Db → Db → Type 0
  Kept = Keeps (IsKept user key order)

  same-Kept :
      (db db' : Db)
      → db'.orders ≡ db.orders
      → db'.order_idempotency ≡ db.order_idempotency
      → Kept db db'
  unfolding find_idempotency
  same-Kept db db' orders keys k = record {
    by_key = rw keys k.by_key;
    status = k.status;
    by_id = rw orders k.by_id;
  }

  create-Kept : (new : NewOrder) → RespectsSql Kept (create_order new)
  unfolding create_order find_idempotency
  create-Kept new db o db' e k =
      let orders : db'.orders ≡ db.orders ++ o ∷ [] = ground (arith, e) in
      let keys : db'.order_idempotency ≡ db.order_idempotency = ground (arith, e) in
      record {
        by_key = rw keys k.by_key;
        status = k.status;
        by_id = rw orders (find-append (is_order order.id) db.orders (o ∷ []) k.by_id);
      }

  status-Kept : (id : Uuid) (status : OrderStatus) → RespectsSql Kept (update_status_tx id status)
  unfolding update_status_tx find_idempotency
  status-Kept id status db o db' e k =
      let orders : db'.orders ≡ set_status id status db.orders = ground (arith, e) in
      let keys : db'.order_idempotency ≡ db.order_idempotency = ground (arith, e) in
      let (s, found) = find-set_status order.id id order k.status status db.orders k.by_id in
      record { by_key = rw keys k.by_key; status = s; by_id = rw orders found }

  abbrev order_id_of : Option IdempotencyRow → Option Uuid
  order_id_of none = none
  order_id_of (some row) = some row.order_id

  inserted :
      (row : IdempotencyRow) (rows : List IdempotencyRow)
      → any (is_key row.user_id row.key) rows ≡ false
      → order_id_of (find (is_key user key.key) rows) ≡ some order.id
      → order_id_of (find (is_key user key.key) (row ∷ rows)) ≡ some order.id
  inserted row rows once h = elim (Bool-cases (is_key user key.key row)) [
    | inr other ↦ rw other h
    | inl mine ↦
        let who : row.user_id ≡ user = (==_iff row.user_id user).0 (ground (arith, mine)) in
        let what : row.key ≡ key.key = (eq_iff row.key key.key).0 (ground (arith, mine)) in
        let once' : any (is_key user key.key) rows ≡ false = rw (who, what) at once in
        let h' = rw (any-find (is_key user key.key) rows once') at h in absurd (ground (arith, h'))
  ]

  record-Kept :
      (u : Uuid) (k : IdempotencyKey) (id : Uuid) (db : Db) (r : Recorded) (db' : Db)
      → recorded u k db (insert_idempotency_tx u k.key id db) ≡ committed r db'
      → Kept db db'
  unfolding insert_idempotency_tx find_idempotency
  record-Kept u k id db r db' e old =
      elim (Bool-cases (any (is_key u k.key) db.order_idempotency)) [
        | inl twice ↦ same-Kept db db' (ground (arith, e, twice)) (ground (arith, e, twice)) old
        | inr once ↦
            let keys : db'.order_idempotency
                ≡ record { user_id = u; key = k.key; order_id = id } ∷ db.order_idempotency =
              ground (arith, e, once) in
            let orders : db'.orders ≡ db.orders = ground (arith, e, once) in
            record {
              by_key = rw keys (
                  inserted (record { user_id = u; key = k.key; order_id = id }) db.order_idempotency
                    once old.by_key);
              status = old.status;
              by_id = rw orders old.by_id;
            }
      ]

  key-Kept :
      (lock : _) (k : Option IdempotencyKey) (id : Uuid) → Respects Kept (record_key lock k id)
  unfolding record_key
  key-Kept lock none id db r db' e = same-Kept db db' (ground (arith, e)) (ground (arith, e))
  key-Kept lock (some k) id db r db' e = record-Kept lock.user_id k id db r db' e

  pub Kept-IsShop : IsShop Kept
  unfolding new_uuid create_order_items clear_cart insert_domain_event_tx SubscriptionRows.insert_tx
      SubscriptionRows.cancel_by_order_tx deliver
  Kept-IsShop = record {
    base = Keeps-IsFrame (IsKept user key order);
    stocks = λ a b s.
        same-Kept a b (ap (λ (d : Db). d.orders) s.0) (ap (λ (d : Db). d.order_idempotency) s.0);
    seats = λ a b s.
        same-Kept a b (ap (λ (d : Db). d.orders) s.0) (ap (λ (d : Db). d.order_idempotency) s.0);
    delta = λ lock ld now db b db' e.
        let state = (apply_delta_tx-IsApplied lock ld now db e).state in
        same-Kept db db' (ap (λ (d : Db). d.orders) state)
          (ap (λ (d : Db). d.order_idempotency) state);
    uuid = λ db a db' e. same-Kept db db' (ground (arith, e)) (ground (arith, e));
    create = create-Kept;
    items = λ order lines now db a db' e. same-Kept db db' (ground (arith, e)) (ground (arith, e));
    cart = λ user db a db' e. same-Kept db db' (ground (arith, e)) (ground (arith, e));
    event = λ event db a db' e. same-Kept db db' (ground (arith, e)) (ground (arith, e));
    status = status-Kept;
    grant = λ s now db a db' e. same-Kept db db' (ground (arith, e)) (ground (arith, e));
    ungrant = λ order db a db' e. same-Kept db db' (ground (arith, e)) (ground (arith, e));
    key = key-Kept;
    notice = λ notice db. same-Kept db _ refl refl;
  }

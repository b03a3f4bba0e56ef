-- ===== src/Orders/Sound/Statements.antt =====
-- The statements and the steps of checkout and refund keep the invariant.
use dream_fly_backend.Prelude.{
  ◌≡◌, refl, Option, none, some, List, arith, any, Bool-cases, inl, inr,
}
use dream_fly_backend.Base.{Uuid, Instant}
use dream_fly_backend.Db.{
  Db, Same, but_orders, RespectsSql, Respects, committed, Sql, pure-Respects, new_uuid, DomainEvent,
}
use dream_fly_backend.Cart.Repository.{clear_cart}
use dream_fly_backend.Orders.Fulfilment.{OrderLine}
use dream_fly_backend.Orders.Idempotency.{
  IdempotencyKey, Recorded, record_key, insert_idempotency_tx, recorded, is_key,
}
use dream_fly_backend.Orders.Model.{OrderStatus}
use dream_fly_backend.Orders.Placing.{insert_domain_event_tx}
use dream_fly_backend.Orders.Repository.{
  NewOrder, create_order, create_order_items, update_status_tx,
}
use dream_fly_backend.Orders.Sound.{
  Stocks-Sound, Seats-Sound, Sound, Sound-IsFrame, but_orders-Sound, points-Sound,
}
use dream_fly_backend.Points.Model.{LedgerDelta}
use dream_fly_backend.Points.Service.{BalanceLock, apply_delta_tx}
use dream_fly_backend.Points.Service.Ledger.{apply_delta_tx-IsApplied, apply_delta_tx-IsSettled}
use dream_fly_backend.Subscriptions.Repository.{
  NewSubscription, insert_tx, is_refused as is_bad_grant,
}
use dream_fly_backend.Subscriptions.Repository
use dream_fly_backend.Orders.Frame.{IsShop}
use dream_fly_backend.Orders.Checkout.{deliver}

-- A statement that writes only order data.
orders-Sound : {A : Type 0} (m : Sql A) → RespectsSql (Same but_orders) m → RespectsSql Sound m
orders-Sound m h db a db' e = but_orders-Sound db db' (h db a db' e)

new_uuid-Sound : RespectsSql Sound new_uuid
unfolding new_uuid
new_uuid-Sound =
    orders-Sound new_uuid
      λ db a db' e. let state : db' ≡ record db { drawn = db'.drawn } = cc in rw state refl

create_order-Sound : (new : NewOrder) → RespectsSql Sound (create_order new)
unfolding create_order
create_order-Sound new = orders-Sound (create_order new) λ db a db' e. ground (arith, e)

create_order_items-Sound :
    (order : Uuid) (lines : List OrderLine) (now : Instant)
    → RespectsSql Sound (create_order_items order lines now)
unfolding create_order_items
create_order_items-Sound order lines now =
    orders-Sound (create_order_items order lines now) λ db a db' e. ground (arith, e)

clear_cart-Sound : (user : Uuid) → RespectsSql Sound (clear_cart user)
unfolding clear_cart
clear_cart-Sound user = orders-Sound (clear_cart user) λ db a db' e. ground (arith, e)

insert_event-Sound : (event : DomainEvent) → RespectsSql Sound (insert_domain_event_tx event)
unfolding insert_domain_event_tx
insert_event-Sound event =
    orders-Sound (insert_domain_event_tx event) λ db a db' e. ground (arith, e)

update_status-Sound :
    (id : Uuid) (status : OrderStatus) → RespectsSql Sound (update_status_tx id status)
unfolding update_status_tx
update_status-Sound id status =
    orders-Sound (update_status_tx id status) λ db a db' e. ground (arith, e)

insert_tx-Sound : (s : NewSubscription) (now : Instant) → RespectsSql Sound (insert_tx s now)
unfolding insert_tx
insert_tx-Sound s now = orders-Sound (insert_tx s now) λ db a db' e. ground (arith, e)

cancel_subscriptions-Sound :
    (order : Uuid) → RespectsSql Sound (Repository.cancel_by_order_tx order)
unfolding Repository.cancel_by_order_tx
cancel_subscriptions-Sound order =
    orders-Sound (Repository.cancel_by_order_tx order) λ db a db' e. ground (arith, e)

apply_delta-Sound :
    (lock : BalanceLock) (ld : LedgerDelta) (now : Instant)
    → Respects Sound (apply_delta_tx lock ld now)
apply_delta-Sound lock ld now db b db' e =
    let state = (apply_delta_tx-IsApplied lock ld now db e).state in
    points-Sound db db' (rw state refl) (λ h. apply_delta_tx-IsSettled lock ld now db h e)

record_state :
    (user : Uuid) (key : IdempotencyKey) (order : Uuid) (db : Db) {r : Recorded} {db' : Db}
    → recorded user key db (insert_idempotency_tx user key.key order db) ≡ committed r db'
    → Same but_orders db db'
unfolding insert_idempotency_tx
record_state user key order db e =
    elim (Bool-cases (any (is_key user key.key) db.order_idempotency)) [
      | inl twice ↦ ground (arith, e, twice)
      | inr once ↦ ground (arith, e, once)
    ]

record_key-Sound :
    (buyer : BalanceLock) (key : Option IdempotencyKey) (order : Uuid)
    → Respects Sound (record_key buyer key order)
unfolding record_key
record_key-Sound buyer none order db r db' e = pure-Respects Sound-IsFrame _ db r db' e
record_key-Sound buyer (some key) order db r db' e =
    but_orders-Sound db db' (record_state buyer.user_id key order db e)

pub Sound-IsShop : IsShop Sound
unfolding deliver
Sound-IsShop = record {
  base = Sound-IsFrame;
  stocks = Stocks-Sound;
  seats = Seats-Sound;
  delta = apply_delta-Sound;
  uuid = new_uuid-Sound;
  create = create_order-Sound;
  items = create_order_items-Sound;
  cart = clear_cart-Sound;
  event = insert_event-Sound;
  status = update_status-Sound;
  grant = insert_tx-Sound;
  ungrant = cancel_subscriptions-Sound;
  key = record_key-Sound;
  notice = λ notice db. but_orders-Sound db _ refl;
}

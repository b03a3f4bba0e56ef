-- ===== src/Orders/Frame.antt =====
-- What checkouts and changes of status keep, from what their statements keep.
pub mod Steps
pub mod Checkouts
pub mod Statuses
pub mod Kept
use dream_fly_backend.Prelude.{
  ◌≡◌, refl, Option, none, some, List, [], ◌∷◌, arith, any, Bool-cases, inl, inr,
}
use dream_fly_backend.Base.{Uuid, Instant}
use dream_fly_backend.Db.{
  Db, Same, but_orders, RespectsSql, Respects, committed, Sql, query-Respects, >>=-Respects,
  pure-Respects, some_or-Respects, new_uuid, DomainEvent, Notice, IsFrame,
}
use dream_fly_backend.Cart.Repository.{clear_cart}
use dream_fly_backend.Orders.Fulfilment.{OrderLine, ProductFulfilment}
use dream_fly_backend.Orders.Idempotency.{
  IdempotencyKey, Recorded, record_key, insert_idempotency_tx, recorded, is_key,
}
use dream_fly_backend.Orders.Model.{OrderStatus}
use dream_fly_backend.Orders.Placing.{grant_each, insert_domain_event_tx}
use dream_fly_backend.Orders.Repository.{
  NewOrder, create_order, create_order_items, update_status_tx,
}
use dream_fly_backend.Points.Model.{LedgerDelta}
use dream_fly_backend.Points.Service.{BalanceLock, apply_delta_tx, apply_deltas_tx}
use dream_fly_backend.Points.Service.Ledger.{apply_delta_tx-IsApplied, apply_delta_tx-IsSettled}
use dream_fly_backend.Products.Model.{Product}
use dream_fly_backend.Products.Service.{Reserved}
use dream_fly_backend.Subscriptions.Entitlement.{EntitlementGrant}
use dream_fly_backend.Subscriptions.Repository.{
  NewSubscription, insert_tx, is_refused as is_bad_grant,
}
use dream_fly_backend.Subscriptions.Repository
use dream_fly_backend.Subscriptions.Service.{grant_from_purchase_tx, insert_grant}
use dream_fly_backend.Orders.Checkout.{deliver}
use dream_fly_backend.Products.Service.Stock.{Stocks}
use dream_fly_backend.Enrolments.Capacity.{Seats}

-- What a relation must hold of, for checkouts and changes of status to be in it: the statements that
-- they are made of.
pub record IsShop (R : Db → Db → Type 0) : Type 0 where
  pub base : IsFrame R
  pub stocks : (a b : Db) → Stocks a b → R a b
  pub seats : (a b : Db) → Seats a b → R a b
  pub delta :
      (lock : BalanceLock) (ld : LedgerDelta) (now : Instant)
      → Respects R (apply_delta_tx lock ld now)
  pub uuid : RespectsSql R new_uuid
  pub create : (new : NewOrder) → RespectsSql R (create_order new)
  pub items :
      (order : Uuid) (lines : List OrderLine) (now : Instant)
      → RespectsSql R (create_order_items order lines now)
  pub cart : (user : Uuid) → RespectsSql R (clear_cart user)
  pub event : (event : DomainEvent) → RespectsSql R (insert_domain_event_tx event)
  pub status : (id : Uuid) (status : OrderStatus) → RespectsSql R (update_status_tx id status)
  pub grant : (s : NewSubscription) (now : Instant) → RespectsSql R (insert_tx s now)
  pub ungrant : (order : Uuid) → RespectsSql R (Repository.cancel_by_order_tx order)
  pub key :
      (buyer : BalanceLock) (key : Option IdempotencyKey) (order : Uuid)
      → Respects R (record_key buyer key order)
  pub notice : (notice : Notice) (db : Db) → R db (deliver notice db)

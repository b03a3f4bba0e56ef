-- ===== src/Orders/Replay/Later.antt =====
-- What follows the insert of an order leaves the orders as they are.
use dream_fly_backend.Prelude.{ap, ℤ, Option, none, some, List, [], ◌∷◌, arith}
use dream_fly_backend.Base.{Uuid, Instant}
use dream_fly_backend.Cart.Repository.{clear_cart}
use dream_fly_backend.Courses.Seats.{CourseLocks}
use dream_fly_backend.Db.{
  Db, Same, Same-IsFrame, Respects, RespectsSql, query-Respects, >>=-Respects, pure-Respects,
  some_or-Respects,
}
use dream_fly_backend.Enrolments.Frames.{enrol_batch-Seats}
use dream_fly_backend.Enrolments.Service.{enrol_batch_from_purchase_tx}
use dream_fly_backend.Orders.Fulfilment.{OrderLine, ProductFulfilment}
use dream_fly_backend.Orders.Model.{Order}
use dream_fly_backend.Orders.Placing.{grant_each}
use dream_fly_backend.Orders.Repository.{create_order_items}
use dream_fly_backend.Points.Model.{LedgerDelta}
use dream_fly_backend.Points.Service.{BalanceLock, apply_deltas_tx}
use dream_fly_backend.Points.Service.Ledger.{apply_delta_tx-IsApplied}
use dream_fly_backend.Products.Model.{Product}
use dream_fly_backend.Products.Service.{Reserved}
use dream_fly_backend.Subscriptions.Entitlement.{EntitlementGrant}
use dream_fly_backend.Subscriptions.Repository.{NewSubscription, insert_tx}
use dream_fly_backend.Subscriptions.Service.{grant_from_purchase_tx, insert_grant}

abbrev pub orders_of : Db → List Order
orders_of db = db.orders

abbrev pub SameOrders : Db → Db → Type 0
SameOrders = Same orders_of

pub create_order_items-SameOrders :
    (order : Uuid) (lines : List OrderLine) (now : Instant)
    → RespectsSql SameOrders (create_order_items order lines now)
unfolding create_order_items
create_order_items-SameOrders order lines now db a db' e = ground (arith, e)

pub clear_cart-SameOrders : (user : Uuid) → RespectsSql SameOrders (clear_cart user)
unfolding clear_cart
clear_cart-SameOrders user db a db' e = ground (arith, e)

pub insert_tx-SameOrders :
    (s : NewSubscription) (now : Instant) → RespectsSql SameOrders (insert_tx s now)
unfolding insert_tx
insert_tx-SameOrders s now db a db' e = ground (arith, e)

pub apply_deltas-SameOrders :
    (lock : BalanceLock) (lds : List LedgerDelta) (now : Instant)
    → Respects SameOrders (apply_deltas_tx lock lds now)
unfolding apply_deltas_tx
apply_deltas-SameOrders lock [] now = pure-Respects (Same-IsFrame orders_of) tt
apply_deltas-SameOrders lock (ld ∷ lds) now =
    >>=-Respects (Same-IsFrame orders_of)
      (λ db b db' e. ap orders_of (apply_delta_tx-IsApplied lock ld now db e).state)
      (λ b. apply_deltas-SameOrders lock lds now)

pub enrol_batch-SameOrders :
    (locks : CourseLocks) (buyer : BalanceLock) (courses : List Uuid) (order : Uuid) (now : Instant)
    → Respects SameOrders (enrol_batch_from_purchase_tx locks buyer courses order now)
enrol_batch-SameOrders locks buyer courses order now db a db' e =
    ap orders_of (enrol_batch-Seats locks buyer courses order now db a db' e).0

pub insert_grant-SameOrders :
    (buyer : BalanceLock) (product : Product) (price : ℤ) (order : Uuid) (now : Instant)
    (grant : Option EntitlementGrant)
    → Respects SameOrders (insert_grant buyer product price order now grant)
insert_grant-SameOrders buyer product price order now none =
    pure-Respects (Same-IsFrame orders_of) none
insert_grant-SameOrders buyer product price order now (some grant) =
    >>=-Respects (Same-IsFrame orders_of)
      (query-Respects (Same-IsFrame orders_of) _ _ (insert_tx-SameOrders _ now))
      (λ s. pure-Respects (Same-IsFrame orders_of) (some s))

pub grant_each-SameOrders :
    (buyer : BalanceLock) (reserved : Reserved) (order : Uuid) (now : Instant)
    (ps : List ProductFulfilment)
    → Respects SameOrders (grant_each buyer reserved order now ps)
unfolding grant_each grant_from_purchase_tx
grant_each-SameOrders buyer reserved order now [] = pure-Respects (Same-IsFrame orders_of) tt
grant_each-SameOrders buyer reserved order now (p ∷ ps) =
    >>=-Respects (Same-IsFrame orders_of) (some_or-Respects (Same-IsFrame orders_of) _ _)
      (λ product.
        >>=-Respects (Same-IsFrame orders_of) (insert_grant-SameOrders buyer product _ order now _)
          (λ s. grant_each-SameOrders buyer reserved order now ps))

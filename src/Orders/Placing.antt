-- ===== src/Orders/Placing.antt =====
-- src/modules/orders/service.rs: the transaction of `checkout`, step by step.
use dream_fly_backend.Prelude.{String, Option, none, some, List, [], ◌∷◌, map, ◌++◌}
use dream_fly_backend.Base.{Uuid, Instant}
use dream_fly_backend.AppError.{validation, internal, plain}
use dream_fly_backend.Cart.Model.{CheckoutLine}
use dream_fly_backend.Cart.Repository.{find_cart_items_for_checkout_tx, clear_cart}
use dream_fly_backend.Coupons.Model.{Coupon}
use dream_fly_backend.Coupons.Repository.{find_valid_by_code}
use dream_fly_backend.Db.{
  Sql, done, DomainEvent, order_created, Tx, ◌>>=◌, ◌>>◌, pure, lift, some_or, query, new_uuid,
}
use dream_fly_backend.Enrolments.Service.{enrol_batch_from_purchase_tx}
use dream_fly_backend.Orders.Fulfilment.{
  PurchasableCart, ProductFulfilment, ensure_all_purchasable, plan, order_lines,
}
use dream_fly_backend.Orders.Idempotency.{IdempotencyKey, Recorded, fresh, twin_won, record_key}
use dream_fly_backend.Orders.Locks.{CheckoutLocks, acquire_checkout_locks}
use dream_fly_backend.Orders.Model.{Order, paid}
use dream_fly_backend.Orders.Pricing.{PricingOutcome, price, ledger_deltas}
use dream_fly_backend.Orders.Repository.{NewOrder, create_order, create_order_items}
use dream_fly_backend.Orders.Request.{CheckoutIntent, order_number}
use dream_fly_backend.Points.Service.{BalanceLock, apply_deltas_tx}
use dream_fly_backend.Products.Locks.{StockLine}
use dream_fly_backend.Products.Service.{Reserved, reserve_stock_tx}
use dream_fly_backend.Subscriptions.Service.{grant_from_purchase_tx}

-- How the transaction ends: an order, an empty cart, or the twin's order.
pub data Ending : Type 0 where
  placed : Order → Ending
  empty_cart : BalanceLock → Ending
  replayed : Uuid → IdempotencyKey → Ending

abbrev pub stock_line : ProductFulfilment → StockLine
stock_line p = record { product_id = p.product_id; quantity = p.quantity; name = p.name }

-- The loop that offers every product line to the subscriptions.
unfoldable pub grant_each :
    BalanceLock → Reserved → Uuid → Instant → List ProductFulfilment → Tx (Unit {0})
grant_each buyer reserved order now [] = pure tt
grant_each buyer reserved order now (p ∷ ps) = do
  product ←
      some_or (reserved p.product_id)
        (internal (plain "product line was reserved by reserve_stock_tx"))
  granted ← grant_from_purchase_tx buyer product p.quantity p.price_cents order now
  grant_each buyer reserved order now ps

unfoldable pub insert_domain_event_tx : DomainEvent → Sql (Unit {0})
insert_domain_event_tx event db = done tt (record db { outbox = db.outbox ++ event ∷ [] })

abbrev pub paid_order : BalanceLock → String → PricingOutcome → CheckoutIntent → Instant → NewOrder
paid_order buyer number outcome intent now = record {
  user_id = buyer.user_id;
  order_number = number;
  status = paid;
  amounts = record {
    total_cents = outcome.total_cents;
    discount_cents = outcome.discount_cents;
    points_used = outcome.points_used;
    points_earned = outcome.points_earned;
  };
  coupon_code = outcome.applied_coupon_code;
  payment_method = some intent.payment_method;
  paid_at = some now;
  created_at = now;
}

-- After `record`: the event, unless the twin's order is the answer.
abbrev pub announce : Order → Option String → Recorded → Tx Ending
announce order correlation fresh = do
  query (insert_domain_event_tx (order_created order correlation))
  pure (placed order)
announce order correlation (twin_won user key) = pure (replayed user key)

-- `upper` is `str::to_uppercase`, `stamp` the studio's local day as `%Y%m%d`.
module _ (upper : String → String) (stamp : Instant → String) where
  -- From the reservation to the event.
  unfoldable pub place_order_tx :
      CheckoutLocks
      → Option IdempotencyKey
      → CheckoutIntent
      → Option String
      → Instant
      → PurchasableCart
      → PricingOutcome
      → Tx Ending
  place_order_tx locks key intent correlation now cart outcome = do
    let work = plan cart
    reserved ← reserve_stock_tx locks.products (map stock_line work.products)
    suffix ← query new_uuid
    order ← query (
        create_order
          (paid_order locks.balance (order_number (stamp now) suffix) outcome intent now))
    items ← query (create_order_items order.id (order_lines cart reserved) now)
    apply_deltas_tx locks.balance (ledger_deltas outcome order.id) now
    enrolments ←
        enrol_batch_from_purchase_tx locks.courses locks.balance work.course_ids order.id now
    grant_each locks.balance reserved order.id now work.products
    query (clear_cart locks.balance.user_id)
    recorded ← record_key locks.balance key order.id
    announce order correlation recorded

  -- `if let Some(code) = intent.coupon_code`
  abbrev pub load_coupon : Option String → Instant → Tx (Option Coupon)
  load_coupon none now = pure none
  load_coupon (some code) now = do
    found ← query (find_valid_by_code upper code now)
    coupon ← some_or found (validation (plain "invalid coupon"))
    pure (some coupon)

  -- From the cart's snapshot on.
  unfoldable pub checkout_lines :
      CheckoutLocks
      → Option IdempotencyKey
      → CheckoutIntent
      → Option String
      → Instant
      → List CheckoutLine
      → Tx Ending
  checkout_lines locks key intent correlation now [] = pure (empty_cart locks.balance)
  checkout_lines locks key intent correlation now (line ∷ lines) = do
    cart ← lift (ensure_all_purchasable (line ∷ lines))
    coupon ← load_coupon intent.coupon_code now
    outcome ← lift (price cart coupon locks.balance.balance intent.use_points)
    place_order_tx locks key intent correlation now cart outcome

  unfoldable pub checkout_tx :
      Uuid → Option IdempotencyKey → CheckoutIntent → Option String → Instant → Tx Ending
  checkout_tx user key intent correlation now = do
    locks ← acquire_checkout_locks user
    lines ← query (find_cart_items_for_checkout_tx locks.balance.user_id)
    checkout_lines locks key intent correlation now lines

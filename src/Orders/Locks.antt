-- ===== src/Orders/Locks.antt =====
-- src/modules/orders/locks.rs: the order lock protocol, in its one order.
use dream_fly_backend.Base.{Uuid}
use dream_fly_backend.Cart.Repository.{find_checkout_targets_tx}
use dream_fly_backend.Courses.Seats.{CourseLocks}
use dream_fly_backend.Courses.SeatQueries.{lock_courses_tx}
use dream_fly_backend.Db.{Tx, ◌>>=◌, pure, query}
use dream_fly_backend.Orders.Model.{Order}
use dream_fly_backend.Points.Service.{BalanceLock, lock_balance_tx}
use dream_fly_backend.Products.Locks.{ProductLocks, RestockLocks}
use dream_fly_backend.Products.Service.{lock_products_tx, lock_restock_for_order_tx}

pub record CheckoutLocks : Type 0 where
  pub balance : BalanceLock
  pub products : ProductLocks
  pub courses : CourseLocks

unfoldable pub acquire_checkout_locks : Uuid → Tx CheckoutLocks
acquire_checkout_locks user = do
  balance ← lock_balance_tx user
  targets ← query (find_checkout_targets_tx balance.user_id)
  products ← lock_products_tx targets.product_ids
  courses ← query (lock_courses_tx targets.course_ids)
  pure (record { balance = balance; products = products; courses = courses })

pub record RefundLocks : Type 0 where
  pub balance : BalanceLock
  pub restock : RestockLocks

unfoldable pub acquire_refund_locks : Order → Tx RefundLocks
acquire_refund_locks order = do
  balance ← lock_balance_tx order.user_id
  restock ← lock_restock_for_order_tx order.id
  pure (record { balance = balance; restock = restock })

-- ===== src/Orders/Sound/Reads.antt =====
-- Locking and reading change nothing: they respect every frame.
use dream_fly_backend.Prelude.{String, Option, none, some, List}
use dream_fly_backend.Base.{Uuid, Instant}
use dream_fly_backend.Cart.Repository.{find_checkout_targets_tx}
use dream_fly_backend.Coupons.Repository.{find_valid_by_code}
use dream_fly_backend.Courses.SeatQueries.{lock_courses_tx}
use dream_fly_backend.Db.{
  Db, Respects, IsFrame, query-Respects, >>=-Respects, pure-Respects, some_or-Respects,
  select-Respects,
}
use dream_fly_backend.Orders.Locks.{acquire_checkout_locks}
use dream_fly_backend.Orders.Placing.{load_coupon}
use dream_fly_backend.Points.Repository.{select_balance_tx}
use dream_fly_backend.Points.Service.{lock_balance_tx}
use dream_fly_backend.Products.Repository.{select_products_tx}
use dream_fly_backend.Products.Service.{lock_products_tx}

module _ {R : Db → Db → Type 0} (frame : IsFrame R) where
  pub lock_balance-Respects : (user : Uuid) → Respects R (lock_balance_tx user)
  unfolding lock_balance_tx select_balance_tx
  lock_balance-Respects user =
      >>=-Respects frame (query-Respects frame _ _ (select-Respects frame _))
        (λ found. >>=-Respects frame (some_or-Respects frame found _) (λ b. pure-Respects frame _))

  pub lock_products-Respects : (ids : List Uuid) → Respects R (lock_products_tx ids)
  unfolding lock_products_tx select_products_tx
  lock_products-Respects ids =
      >>=-Respects frame (query-Respects frame _ _ (select-Respects frame _))
        (λ rows. pure-Respects frame _)

  pub acquire_checkout_locks-Respects : (user : Uuid) → Respects R (acquire_checkout_locks user)
  unfolding acquire_checkout_locks find_checkout_targets_tx lock_courses_tx
  acquire_checkout_locks-Respects user = >>=-Respects frame (lock_balance-Respects user) λ balance.
      >>=-Respects frame (query-Respects frame _ _ (select-Respects frame _)) λ targets.
        >>=-Respects frame (lock_products-Respects targets.product_ids) λ products.
          >>=-Respects frame (query-Respects frame _ _ (select-Respects frame _))
            λ courses. pure-Respects frame _

  pub load_coupon-Respects :
      (upper : String → String) (stamp : Instant → String) (code : Option String) (now : Instant)
      → Respects R (load_coupon upper stamp code now)
  unfolding find_valid_by_code
  load_coupon-Respects upper stamp none now = pure-Respects frame none
  load_coupon-Respects upper stamp (some code) now =
      >>=-Respects frame (query-Respects frame _ _ (select-Respects frame _)) λ found.
        >>=-Respects frame (some_or-Respects frame found _)
          λ coupon. pure-Respects frame (some coupon)

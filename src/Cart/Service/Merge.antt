-- ===== src/Cart/Service/Merge.antt =====
-- src/modules/cart/service.rs: the transaction of `add_product_item`, merge first and judge then.
use dream_fly_backend.Prelude.{ℤ}
use dream_fly_backend.Base.{Uuid}
use dream_fly_backend.Cart.Repository.{add_product_item_tx}
use dream_fly_backend.Db.{Tx, ◌>>=◌, lift, query}
use dream_fly_backend.Products.Model.{Product, ensure_purchasable}

unfoldable pub merge_product_item : Product → Uuid → Uuid → ℤ → Tx (Unit {0})
merge_product_item product user id quantity = do
  merged ← query (add_product_item_tx user id quantity)
  lift (ensure_purchasable product merged.quantity)

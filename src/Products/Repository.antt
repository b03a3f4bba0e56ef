-- ===== src/Products/Repository.antt =====
-- src/modules/products/repository.rs: the statements on `products` and on the stock traces.
use dream_fly_backend.Prelude.{
  ℕ, ℤ, pos, ◌+ℤ◌, ◌-ℤ◌, leb_ℤ, ltb_ℤ, check_word, i32_half, Bool, false, ◌&&◌, Option, none, some,
  List, [], ◌∷◌, map, filter, find, any, ◌==◌, if◌then◌else◌, sort_by_key, true,
}
use dream_fly_backend.Base.{Uuid}
use dream_fly_backend.AppError.{database, check_violation, other_state}
use dream_fly_backend.Cart.Model.{LineTarget}
use dream_fly_backend.Db.{Db, Sql, done, failed, select}
use dream_fly_backend.Products.Model.{Product, OrderStockTrace}

abbrev pub is_product : Uuid → Product → Bool
is_product id p = p.id == id

-- `WHERE id = ANY(ids)`
abbrev pub is_any : List Uuid → Uuid → Bool
is_any ids id = any (λ i. i == id) ids

unfoldable pub find_product : Uuid → Db → Option Product
find_product id db = find (is_product id) db.products

abbrev pub product_key : Product → ℕ
product_key p = p.id

-- `SELECT .. WHERE id = ANY(..) ORDER BY id FOR NO KEY UPDATE`
unfoldable pub select_products_tx : List Uuid → Sql (List Product)
select_products_tx ids =
    select λ db. sort_by_key product_key (filter (λ p. is_any ids p.id) db.products)

-- `UPDATE products SET stock = ..`; the primary key leaves one row at most.
unfoldable pub set_stock : Uuid → Option ℤ → List Product → List Product
set_stock id stock [] = []
set_stock id stock (p ∷ ps) =
    if is_product id p then record p { stock = stock } ∷ ps else p ∷ set_stock id stock ps

-- A new stock: INT overflow is an error of its own; then `CHECK (stock >= 0)`.
abbrev pub write_stock : Product → Option ℤ → Sql (Option Product)
write_stock p none db = failed (database other_state none)
write_stock p (some stock) db =
    if ltb_ℤ stock (pos 0)
    then failed (database check_violation (some "products_stock_nonneg"))
    else done (some (record p { stock = some stock }))
        (record db { products = set_stock p.id (some stock) db.products })

abbrev pub decrement : Option ℤ → Product → ℤ → Sql (Option Product)
decrement none p quantity db = done (some p) db
decrement (some stock) p quantity db =
    if leb_ℤ quantity stock
    then write_stock p (check_word i32_half (stock -ℤ quantity)) db
    else done none db

abbrev pub decrement_row : Option Product → ℤ → Sql (Option Product)
decrement_row none quantity db = done none db
decrement_row (some p) quantity db = decrement p.stock p quantity db

unfoldable pub try_decrement_stock_tx : Uuid → ℤ → Sql (Option Product)
try_decrement_stock_tx product_id quantity db =
    decrement_row (find_product product_id db) quantity db

abbrev pub increment : Option ℤ → Product → ℤ → Sql (Option Product)
increment none p quantity db = done (some p) db
increment (some stock) p quantity db = write_stock p (check_word i32_half (stock +ℤ quantity)) db

abbrev pub increment_row : Option Product → ℤ → Sql (Option Product)
increment_row none quantity db = done none db
increment_row (some p) quantity db = increment p.stock p quantity db

unfoldable pub restore_stock_tx : Uuid → ℤ → Sql (Option Product)
restore_stock_tx product_id quantity db = increment_row (find_product product_id db) quantity db

abbrev pub is_product_line : LineTarget → Bool
is_product_line (LineTarget.product id) = true
is_product_line (LineTarget.course id) = false

-- The lines of one order share one `created_at`, so `ORDER BY` leaves the order of the table.
unfoldable pub find_stock_traces_by_order_tx : Uuid → Sql (List OrderStockTrace)
find_stock_traces_by_order_tx order = select λ db.
    map
      (λ item. record {
        target = item.target;
        quantity = item.quantity;
        stock_decremented = item.stock_decremented;
      })
      (filter (λ item. item.order_id == order && is_product_line item.target) db.order_items)

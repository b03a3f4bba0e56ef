-- ===== src/Products/Locks.antt =====
-- src/modules/products/service.rs, the part without a database: the lock witness, and its order.
pub mod Order
use dream_fly_backend.Prelude.{
  ℕ, ℤ, String, Bool, true, false, Option, List, [], ◌∷◌, map, find, sort_by_key, if◌then◌else◌,
}
use dream_fly_backend.Base.{Uuid}
use dream_fly_backend.AppError.{AppError, Result, ok, ◌>>=◌, ◌>>◌, ok_or, internal, format, uuid}
use dream_fly_backend.Cart.Model.{LineTarget}
use dream_fly_backend.Products.Model.{Product, OrderStockTrace, ensure_line_quantity}
use dream_fly_backend.Products.Repository.{is_product}

-- The locked rows, ascending by id; only `lock_products_tx` makes one.
pub record ProductLocks : Type 0 where
  pub rows : List Product

-- A binary search of rows that ascend by a unique id.
unfoldable pub row : ProductLocks → Uuid → Option Product
row locks id = find (is_product id) locks.rows

abbrev pub not_covered : Uuid → AppError
not_covered id = internal (format "product {} is not covered by ProductLocks" (uuid id ∷ []))

module _ {A : Type 0} where
  abbrev pub pair_key : Product × A → ℕ
  pair_key pair = pair.0.id

  -- The loop that pairs each item with its row.
  unfoldable pub pair_rows : ProductLocks → List A → (A → Uuid) → Result (List (Product × A))
  pair_rows locks [] id = ok []
  pair_rows locks (item ∷ items) id = do
    p ← ok_or (row locks (id item)) (not_covered (id item))
    pairs ← pair_rows locks items id
    ok ((p, item) ∷ pairs)

  unfoldable pub rows_in_lock_order :
      ProductLocks → List A → (A → Uuid) → Result (List (Product × A))
  unfolding pair_rows
  rows_in_lock_order locks items id = do
    pairs ← pair_rows locks items id
    ok (sort_by_key pair_key pairs)

  unfoldable pub in_lock_order : ProductLocks → List A → (A → Uuid) → Result (List A)
  unfolding rows_in_lock_order
  in_lock_order locks items id = do
    pairs ← rows_in_lock_order locks items id
    ok (map (λ pair. pair.1) pairs)

-- `(product_id, quantity, name)`
pub record StockLine : Type 0 where
  pub product_id : Uuid
  pub quantity : ℤ
  pub name : String

-- `for (row, (_, quantity, _)) in &ordered { row.ensure_line_quantity(*quantity)?; }`
unfoldable pub ensure_line_quantities : List (Product × StockLine) → Result (Unit {0})
ensure_line_quantities [] = ok tt
ensure_line_quantities (pair ∷ pairs) = do
  ensure_line_quantity pair.0 pair.1.quantity
  ensure_line_quantities pairs

-- `(product_id, quantity)`
pub record RestockLine : Type 0 where
  pub product_id : Uuid
  pub quantity : ℤ

abbrev restock_line : LineTarget → OrderStockTrace → List RestockLine → List RestockLine
restock_line (LineTarget.product id) trace rest =
    if trace.stock_decremented
    then record { product_id = id; quantity = trace.quantity } ∷ rest
    else rest
restock_line (LineTarget.course id) trace rest = rest

unfoldable pub restock_lines : List OrderStockTrace → List RestockLine
restock_lines [] = []
restock_lines (trace ∷ traces) = restock_line trace.target trace (restock_lines traces)

pub record RestockLocks : Type 0 where
  pub locks : ProductLocks
  pub lines : List RestockLine

-- ===== src/Products/Service.antt =====
-- src/modules/products/service.rs: reserving the stock of a checkout, and restoring it.
pub mod Stock
use dream_fly_backend.Prelude.{Option, none, some, List, [], ◌∷◌, map, if◌then◌else◌, ◌==◌}
use dream_fly_backend.Base.{Uuid}
use dream_fly_backend.AppError.{conflict, internal, format, str, uuid}
use dream_fly_backend.Db.{Tx, ◌>>=◌, ◌>>◌, pure, lift, some_or, query}
use dream_fly_backend.Products.Model.{Product}
use dream_fly_backend.Products.Locks.{
  ProductLocks, StockLine, RestockLine, RestockLocks, rows_in_lock_order, in_lock_order,
  ensure_line_quantities, restock_lines,
}
use dream_fly_backend.Products.Repository.{
  select_products_tx, try_decrement_stock_tx, find_stock_traces_by_order_tx, restore_stock_tx,
}

unfoldable pub lock_products_tx : List Uuid → Tx ProductLocks
lock_products_tx ids = do rows ← query (select_products_tx ids); pure (record { rows = rows })

-- The `HashMap` of reserved rows, by its `get`.
abbrev pub Reserved : Type 0
Reserved = Uuid → Option Product

abbrev pub no_rows : Reserved
no_rows id = none

abbrev pub insert_row : Uuid → Product → Reserved → Reserved
insert_row id p reserved j = if id == j then some p else reserved j

-- The loop of the decrements.
unfoldable pub reserve_lines : List StockLine → Reserved → Tx Reserved
reserve_lines [] reserved = pure reserved
reserve_lines (line ∷ lines) reserved = do
  found ← query (try_decrement_stock_tx line.product_id line.quantity)
  product ←
      some_or found (conflict (format "insufficient stock for product {}" (str line.name ∷ [])))
  reserve_lines lines (insert_row line.product_id product reserved)

unfoldable pub reserve_stock_tx : ProductLocks → List StockLine → Tx Reserved
reserve_stock_tx locks lines = do
  ordered ← lift (rows_in_lock_order locks lines (λ line. line.product_id))
  lift (ensure_line_quantities ordered)
  reserve_lines (map (λ pair. pair.1) ordered) no_rows

unfoldable pub lock_restock_for_order_tx : Uuid → Tx RestockLocks
lock_restock_for_order_tx order = do
  traces ← query (find_stock_traces_by_order_tx order)
  let lines = restock_lines traces
  locks ← lock_products_tx (map (λ line. line.product_id) lines)
  pure (record { locks = locks; lines = lines })

-- The loop of the restores.
unfoldable pub restore_lines : List RestockLine → Tx (Unit {0})
restore_lines [] = pure tt
restore_lines (line ∷ lines) = do
  found ← query (restore_stock_tx line.product_id line.quantity)
  product ←
      some_or found
        (internal (format "restore_stock_tx: product {} not found" (uuid line.product_id ∷ [])))
  restore_lines lines

unfoldable pub restore_for_order_tx : RestockLocks → Tx (Unit {0})
restore_for_order_tx restock = do
  lines ← lift (in_lock_order restock.locks restock.lines (λ line. line.product_id))
  restore_lines lines

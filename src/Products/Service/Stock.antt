-- ===== src/Products/Service/Stock.antt =====
-- No stock is ever negative, and nothing but products is written.
use dream_fly_backend.Prelude.{
  ◌≡◌, refl, ◌∙◌, ℤ, pos, ◌≤ℤ◌, ltb_ℤ, leb_ℤ, Option, none, some, List, [], ◌∷◌, arith, All, ◌==◌,
  Bool-cases, inl, inr, Option-cases, check_word, i32_half, ◌-ℤ◌, ◌+ℤ◌,
}
use dream_fly_backend.Base.{Uuid}
use dream_fly_backend.Db.{
  Db, Same, Keeps, but_products, IsFrame, RespectsSql, Respects, query-Respects, >>=-Respects,
  pure-Respects, lift-Respects, some_or-Respects,
}
use dream_fly_backend.Products.Locks.{ProductLocks, StockLine, RestockLine, RestockLocks}
use dream_fly_backend.Products.Model.{Product}
use dream_fly_backend.Products.Repository.{
  find_product, set_stock, try_decrement_stock_tx, restore_stock_tx, decrement, decrement_row,
  increment_row, write_stock,
}
use dream_fly_backend.Products.Service.{
  Reserved, no_rows, insert_row, reserve_lines, reserve_stock_tx, restore_lines,
  restore_for_order_tx,
}

abbrev pub IsNonneg : Option ℤ → Type 0
IsNonneg none = Unit
IsNonneg (some n) = pos 0 ≤ℤ n

abbrev pub IsStocked : Db → Type 0
IsStocked db = All (λ p. IsNonneg p.stock) db.products

set_stock-IsStocked :
    (id : Uuid) (stock : Option ℤ) (ps : List Product)
    → IsNonneg stock
    → All (λ p. IsNonneg p.stock) ps
    → All (λ p. IsNonneg p.stock) (set_stock id stock ps)
unfolding set_stock
set_stock-IsStocked id stock [] h _ = tt
set_stock-IsStocked id stock (p ∷ ps) h (q, qs) = elim (Bool-cases (p.id == id)) [
  | inl same ↦ rw same (h, qs)
  | inr other ↦ rw other (q, set_stock-IsStocked id stock ps h qs)
]

-- Both statements at once: the region they write, and the sign of what they write.
abbrev pub Stocks : Db → Db → Type 0
Stocks db db' = Same but_products db db' × Keeps IsStocked db db'

pub Stocks-IsFrame : IsFrame Stocks
Stocks-IsFrame = record {
  stay = λ db. (refl, λ h. h);
  go = λ a b c p q. (q.0 ∙ p.0, λ h. q.1 (p.1 h));
}

write_stock-Stocks : (p : Product) (o : Option ℤ) → RespectsSql Stocks (write_stock p o)
write_stock-Stocks p none db a db' e = ground arith
write_stock-Stocks p (some stock) db a db' e = elim (Bool-cases (ltb_ℤ stock (pos 0))) [
  | inl below ↦ absurd (ground (arith, below))
  | inr above ↦
      let state : db' ≡ record db { products = set_stock p.id (some stock) db.products } =
        ground (arith, above) in
      rw state (refl, set_stock-IsStocked p.id (some stock) db.products (ground (arith, above)))
]

decrement-Stocks : (s : Option ℤ) (p : Product) (q : ℤ) → RespectsSql Stocks (decrement s p q)
decrement-Stocks none p q db a db' e = let same : db' ≡ db = cc in rw same (refl, λ h. h)
decrement-Stocks (some stock) p q db a db' e = elim (Bool-cases (leb_ℤ q stock)) [
  | inl enough ↦ write_stock-Stocks p (check_word i32_half (stock -ℤ q)) db a db' (rw enough at e)
  | inr short ↦ let same : db' ≡ db = ground (arith, short) in rw same (refl, λ h. h)
]

decrement_row-Stocks : (p : Option Product) (q : ℤ) → RespectsSql Stocks (decrement_row p q)
decrement_row-Stocks none q db a db' e = let same : db' ≡ db = cc in rw same (refl, λ h. h)
decrement_row-Stocks (some p) q db a db' e = decrement-Stocks p.stock p q db a db' e

increment_row-Stocks : (p : Option Product) (q : ℤ) → RespectsSql Stocks (increment_row p q)
increment_row-Stocks none q db a db' e = let same : db' ≡ db = cc in rw same (refl, λ h. h)
increment_row-Stocks (some p) q db a db' e = elim (Option-cases p.stock) [
  | inl unlimited ↦
      let e' = rw unlimited at e in let same : db' ≡ db = cc e' in rw same (refl, λ h. h)
  | inr (stock, limited) ↦
      write_stock-Stocks p (check_word i32_half (stock +ℤ q)) db a db' (rw limited at e)
]

reserve_lines-Stocks :
    (lines : List StockLine) (r : Reserved) → Respects Stocks (reserve_lines lines r)
unfolding reserve_lines try_decrement_stock_tx
reserve_lines-Stocks [] r = pure-Respects Stocks-IsFrame r
reserve_lines-Stocks (line ∷ lines) r =
    >>=-Respects Stocks-IsFrame
      (query-Respects Stocks-IsFrame _ _
        (λ db. decrement_row-Stocks (find_product line.product_id db) line.quantity db))
      (λ found.
        >>=-Respects Stocks-IsFrame (some_or-Respects Stocks-IsFrame found _)
          (λ p. reserve_lines-Stocks lines (insert_row line.product_id p r)))

-- Reserving writes the products' stocks and nothing else, and leaves no stock negative.
pub reserve_stock_tx-Stocks :
    (locks : ProductLocks) (lines : List StockLine) → Respects Stocks (reserve_stock_tx locks lines)
unfolding reserve_stock_tx
reserve_stock_tx-Stocks locks lines =
    >>=-Respects Stocks-IsFrame (lift-Respects Stocks-IsFrame _) (λ ordered.
      >>=-Respects Stocks-IsFrame (lift-Respects Stocks-IsFrame _)
        (λ u. reserve_lines-Stocks _ no_rows))

restore_lines-Stocks : (lines : List RestockLine) → Respects Stocks (restore_lines lines)
unfolding restore_lines restore_stock_tx
restore_lines-Stocks [] = pure-Respects Stocks-IsFrame tt
restore_lines-Stocks (line ∷ lines) =
    >>=-Respects Stocks-IsFrame
      (query-Respects Stocks-IsFrame _ _
        (λ db. increment_row-Stocks (find_product line.product_id db) line.quantity db))
      (λ found.
        >>=-Respects Stocks-IsFrame (some_or-Respects Stocks-IsFrame found _)
          (λ p. restore_lines-Stocks lines))

-- Restoring writes the products' stocks and nothing else, and leaves no stock negative.
pub restore_for_order_tx-Stocks :
    (restock : RestockLocks) → Respects Stocks (restore_for_order_tx restock)
unfolding restore_for_order_tx
restore_for_order_tx-Stocks restock =
    >>=-Respects Stocks-IsFrame (lift-Respects Stocks-IsFrame _)
      (λ lines. restore_lines-Stocks lines)

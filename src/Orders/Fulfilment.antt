-- ===== src/Orders/Fulfilment.antt =====
-- src/modules/orders/fulfilment.rs: the purchasability gate, the line split, and the order lines.
pub mod Gate
use Prim.Native.String.{◌++◌ as append}
use dream_fly_backend.Prelude.{
  ℤ, String, Bool, true, false, not, Option, none, some, List, [], ◌∷◌, map, filter,
}
use dream_fly_backend.Base.{Uuid}
use dream_fly_backend.AppError.{Result, ok, err, validation, format, strs}
use dream_fly_backend.Cart.Model.{LineTarget, CheckoutLine}
use dream_fly_backend.Products.Model.{Product}

pub record ProductFulfilment : Type 0 where
  pub product_id : Uuid
  pub quantity : ℤ
  pub price_cents : ℤ
  pub name : String

pub record FulfilmentPlan : Type 0 where
  pub products : List ProductFulfilment
  pub course_ids : List Uuid

-- The field is private in the source: only `ensure_all_purchasable` makes one.
pub record PurchasableCart : Type 0 where
  pub lines : List CheckoutLine

abbrev add_line : CheckoutLine → LineTarget → FulfilmentPlan → FulfilmentPlan
add_line line (LineTarget.product id) rest = record rest {
  products =
      record {
        product_id = id;
        quantity = line.quantity;
        price_cents = line.price_cents;
        name = line.name;
      }
      ∷ rest.products;
}
add_line line (LineTarget.course id) rest = record rest { course_ids = id ∷ rest.course_ids }

-- Both loops push at the end, so the parts keep the order of the lines.
unfoldable pub plan_lines : List CheckoutLine → FulfilmentPlan
plan_lines [] = record { products = []; course_ids = [] }
plan_lines (line ∷ lines) = add_line line line.target (plan_lines lines)

unfoldable pub plan : PurchasableCart → FulfilmentPlan
unfolding plan_lines
plan cart = plan_lines cart.lines

unfoldable pub inactive_names : List CheckoutLine → List String
inactive_names lines =
    map (λ line. append "「" (append line.name "」")) (filter (λ line. not line.is_active) lines)

-- The names are joined by `、`.
abbrev gate : List String → List CheckoutLine → Result PurchasableCart
gate [] lines = ok (record { lines = lines })
gate (name ∷ names) lines =
    err (validation (format "以下項目已下架,請先自購物車移除再結帳:{}" (strs (name ∷ names) ∷ [])))

unfoldable pub ensure_all_purchasable : List CheckoutLine → Result PurchasableCart
unfolding inactive_names
ensure_all_purchasable lines = gate (inactive_names lines) lines

pub record OrderLine : Type 0 where
  pub target : LineTarget
  pub quantity : ℤ
  pub price_cents : ℤ
  pub name : String
  pub stock_decremented : Bool

abbrev has_stock : Option Product → Bool
has_stock none = false
has_stock (some p) = elim p.stock [ none ↦ false | some n ↦ true ]

abbrev is_decremented : LineTarget → (Uuid → Option Product) → Bool
is_decremented (LineTarget.product id) reserved = has_stock (reserved id)
is_decremented (LineTarget.course id) reserved = false

-- `reserved` is the map's `get`.
unfoldable pub order_line : (Uuid → Option Product) → CheckoutLine → OrderLine
order_line reserved line = record {
  target = line.target;
  quantity = line.quantity;
  price_cents = line.price_cents;
  name = line.name;
  stock_decremented = is_decremented line.target reserved;
}

unfoldable pub order_lines : PurchasableCart → (Uuid → Option Product) → List OrderLine
unfolding order_line
order_lines cart reserved = map (order_line reserved) cart.lines

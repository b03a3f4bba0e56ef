-- ===== src/Cart/Response.antt =====
-- src/modules/cart/dto.rs: the cart as it is answered, with its checked total.
use dream_fly_backend.Prelude.{ℤ, pos, String, Bool, List, [], ◌∷◌, ◌++◌, checked_add_i64}
use dream_fly_backend.Base.{Uuid}
use dream_fly_backend.AppError.{Result, ok, ◌>>=◌, ok_or, validation, plain}
use dream_fly_backend.Cart.Model.{CartItemType, LineTarget, item_type, checked_line_subtotal}

-- src/modules/cart/model.rs
pub record CartItemJoined : Type 0 where
  pub id : Uuid
  pub target : LineTarget
  pub quantity : ℤ
  pub name : String
  pub price_cents : ℤ
  pub is_active : Bool

pub record CartItemResponse : Type 0 where
  pub id : Uuid
  pub item_type : CartItemType
  pub item_id : Uuid
  pub name : String
  pub quantity : ℤ
  pub unit_price_cents : ℤ
  pub subtotal_cents : ℤ
  pub is_active : Bool

pub record CartResponse : Type 0 where
  pub items : List CartItemResponse
  pub total_cents : ℤ

abbrev target_id : LineTarget → Uuid
target_id (LineTarget.product id) = id
target_id (LineTarget.course id) = id

abbrev pub item_response : CartItemJoined → ℤ → CartItemResponse
item_response item subtotal = record {
  id = item.id;
  item_type = item_type item.target;
  item_id = target_id item.target;
  name = item.name;
  quantity = item.quantity;
  unit_price_cents = item.price_cents;
  subtotal_cents = subtotal;
  is_active = item.is_active;
}

-- The loop over the items, with the total and the rows so far.
unfoldable pub respond_from : ℤ → List CartItemResponse → List CartItemJoined → Result CartResponse
respond_from total rows [] = ok (record { items = rows; total_cents = total })
respond_from total rows (item ∷ items) = do
  subtotal ←
      ok_or (checked_line_subtotal item.price_cents item.quantity)
        (validation (plain "cart subtotal overflow"))
  total' ← ok_or (checked_add_i64 total subtotal) (validation (plain "cart total overflow"))
  respond_from total' (rows ++ item_response item subtotal ∷ []) items

unfoldable pub from_items : List CartItemJoined → Result CartResponse
from_items items = respond_from (pos 0) [] items

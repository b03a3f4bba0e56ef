-- ===== src/Cart/Model.antt =====
-- src/modules/cart/model.rs: what a cart or order line targets, and the checkout snapshot.
use dream_fly_backend.Prelude.{
  ℤ, String, Bool, Option, none, some, List, [], ◌∷◌, from_str, checked_mul_i64,
}
use dream_fly_backend.Base.{Uuid}

pub data CartItemType : Type 0 where
  product course : CartItemType

abbrev pub CartItemType_all : List CartItemType
CartItemType_all = CartItemType.product ∷ CartItemType.course ∷ []

unfoldable pub item_type_str : CartItemType → String
item_type_str CartItemType.product = "product"
item_type_str CartItemType.course = "course"

unfoldable pub parse_item_type : String → Option CartItemType
unfolding item_type_str
parse_item_type s = from_str item_type_str CartItemType_all s

pub data LineTarget : Type 0 where
  product course : Uuid → LineTarget

unfoldable pub item_type : LineTarget → CartItemType
item_type (LineTarget.product id) = CartItemType.product
item_type (LineTarget.course id) = CartItemType.course

unfoldable pub product_id : LineTarget → Option Uuid
product_id (LineTarget.product id) = some id
product_id (LineTarget.course id) = none

unfoldable pub course_id : LineTarget → Option Uuid
course_id (LineTarget.product id) = none
course_id (LineTarget.course id) = some id

-- `FromRow for LineTarget`: `none` is `sqlx::Error::Decode`.
unfoldable pub decode_target : CartItemType → Option Uuid → Option Uuid → Option LineTarget
decode_target CartItemType.product (some id) none = some (LineTarget.product id)
decode_target CartItemType.course none (some id) = some (LineTarget.course id)
decode_target _ _ _ = none

-- A `cart_items` row.
pub record CartItem : Type 0 where
  pub id : Uuid
  pub user_id : Uuid
  pub target : LineTarget
  pub quantity : ℤ

pub record CheckoutLine : Type 0 where
  pub target : LineTarget
  pub quantity : ℤ
  pub price_cents : ℤ
  pub name : String
  pub is_active : Bool

pub record CheckoutTargets : Type 0 where
  pub product_ids : List Uuid
  pub course_ids : List Uuid

unfoldable pub checked_line_subtotal : ℤ → ℤ → Option ℤ
checked_line_subtotal price_cents quantity = checked_mul_i64 price_cents quantity

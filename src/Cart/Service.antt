-- ===== src/Cart/Service.antt =====
-- src/modules/cart/service.rs: the cart's endpoints.
pub mod Merge
use dream_fly_backend.Prelude.{ℤ, String, Bool, true, false, not, Option, none, some, List, ◌∷◌, []}
use dream_fly_backend.Base.{Uuid}
use dream_fly_backend.AppError.{Result, not_found, conflict, validation, plain, format, str}
use dream_fly_backend.Cart.Model.{CartItem, CartItemType, LineTarget, parse_item_type}
use dream_fly_backend.Cart.Repository.{find_by_user, find_item_by_id, clear_cart}
use dream_fly_backend.Cart.Repository
use dream_fly_backend.Cart.Response.{CartResponse, from_items}
use dream_fly_backend.Cart.Service.Merge.{merge_product_item}
use dream_fly_backend.Courses.Model.{ensure_course_quantity, ensure_course_purchasable}
use dream_fly_backend.Courses.SeatQueries.{find_course}
use dream_fly_backend.Db.{select}
use dream_fly_backend.Db.Pool.{
  Pool, ◌>>=◌, ◌>>◌, pure, lift, some_or, query, reject_if, in_transaction,
}
use dream_fly_backend.Products.Model.{ensure_quantity_in_range, ensure_purchasable}
use dream_fly_backend.Products.Repository.{find_product}

unfoldable pub get_cart : Uuid → Pool CartResponse
get_cart user = do items ← query (find_by_user user); lift (from_items items)

unfoldable pub add_product_item : Uuid → Uuid → ℤ → Pool CartResponse
add_product_item user id quantity = do
  lift (ensure_quantity_in_range quantity)
  found ← query (select (find_product id))
  product ← some_or found (not_found (plain "product not found"))
  in_transaction (merge_product_item product user id quantity)
  get_cart user

abbrev is_none : Option CartItem → Bool
is_none none = true
is_none (some i) = false

unfoldable pub add_course_item : Uuid → Uuid → ℤ → Pool CartResponse
add_course_item user id quantity = do
  lift (ensure_course_quantity quantity)
  found ← query (select (find_course id))
  course ← some_or found (not_found (plain "course not found"))
  lift (ensure_course_purchasable course)
  inserted ← query (Repository.add_course_item user id)
  reject_if (is_none inserted) (conflict (plain "course already in cart"))
  get_cart user

abbrev add_by_type : CartItemType → Uuid → Uuid → ℤ → Pool CartResponse
add_by_type CartItemType.product user id quantity = add_product_item user id quantity
add_by_type CartItemType.course user id quantity = add_course_item user id quantity

unfoldable pub add_item : Uuid → String → Uuid → ℤ → Pool CartResponse
add_item user type id quantity = do
  parsed ←
      some_or (parse_item_type type) (validation (format "invalid item_type: {}" (str type ∷ [])))
  add_by_type parsed user id quantity

-- The `match` on the line's target.
abbrev ensure_target : LineTarget → ℤ → Pool (Unit {0})
ensure_target (LineTarget.course id) quantity = lift (ensure_course_quantity quantity)
ensure_target (LineTarget.product id) quantity = do
  found ← query (select (find_product id))
  product ← some_or found (not_found (plain "product not found"))
  lift (ensure_purchasable product quantity)

unfoldable pub update_quantity : Uuid → Uuid → ℤ → Pool CartResponse
update_quantity user item_id quantity = do
  lift (ensure_quantity_in_range quantity)
  found ← query (find_item_by_id user item_id)
  item ← some_or found (not_found (plain "cart item not found"))
  ensure_target item.target quantity
  updated ← query (Repository.update_quantity user item_id quantity)
  row ← some_or updated (not_found (plain "cart item not found"))
  get_cart user

unfoldable pub remove_item : Uuid → Uuid → Pool CartResponse
remove_item user item_id = do
  removed ← query (Repository.remove_item user item_id)
  reject_if (not removed) (not_found (plain "cart item not found"))
  get_cart user

unfoldable pub clear : Uuid → Pool (Unit {0})
clear user = query (clear_cart user)

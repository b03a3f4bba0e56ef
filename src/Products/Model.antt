-- ===== src/Products/Model.antt =====
-- src/modules/products/model.rs: products and the quantity rules of a line.
use dream_fly_backend.Prelude.{
  ℤ, pos, ltb_ℤ, leb_ℤ, eqb_ℤ, String, Bool, true, false, not, ◌&&◌, Option, none, some, List, [],
  ◌∷◌, from_str, if◌then◌else◌,
}
use dream_fly_backend.Base.{Uuid}
use dream_fly_backend.AppError.{
  Result, ok, err, ◌>>◌, bad_request, validation, conflict, plain, format, int,
}
use dream_fly_backend.Cart.Model.{LineTarget}

pub data ProductType : Type 0 where
  ticket course_package membership merchandise : ProductType

abbrev pub ProductType_all : List ProductType
ProductType_all = ticket ∷ course_package ∷ membership ∷ merchandise ∷ []

unfoldable pub product_type_str : ProductType → String
product_type_str ticket = "ticket"
product_type_str course_package = "course_package"
product_type_str membership = "membership"
product_type_str merchandise = "merchandise"

unfoldable pub product_type_from_str : String → Option ProductType
unfolding product_type_str
product_type_from_str s = from_str product_type_str ProductType_all s

pub record OrderStockTrace : Type 0 where
  pub target : LineTarget
  pub quantity : ℤ
  pub stock_decremented : Bool

-- The columns that the modelled code reads or writes.
pub record Product : Type 0 where
  pub id : Uuid
  pub name : String
  pub product_type : ProductType
  pub price_cents : ℤ
  pub stock : Option ℤ
  pub valid_days : Option ℤ
  pub session_count : Option ℤ
  pub is_active : Bool

abbrev pub max_line_quantity : ℤ
max_line_quantity = pos 999

abbrev is_none : Option ℤ → Bool
is_none none = true
is_none (some x) = false

abbrev pub is_entitlement : ProductType → Bool
is_entitlement membership = true
is_entitlement ticket = true
is_entitlement _ = false

unfoldable pub ensure_quantity_in_range : ℤ → Result (Unit {0})
ensure_quantity_in_range quantity =
    if not (leb_ℤ (pos 1) quantity && leb_ℤ quantity max_line_quantity)
    then err (bad_request (format "quantity must be between 1 and {}" (int max_line_quantity ∷ [])))
    else ok tt

unfoldable pub is_time_based_entitlement : Product → Bool
is_time_based_entitlement p =
    is_entitlement p.product_type && is_none p.session_count && not (is_none p.valid_days)

unfoldable pub ensure_line_quantity : Product → ℤ → Result (Unit {0})
unfolding ensure_quantity_in_range is_time_based_entitlement
ensure_line_quantity p quantity = do
  ensure_quantity_in_range quantity
  if is_time_based_entitlement p && not (eqb_ℤ quantity (pos 1))
      then err (validation (plain "time-based subscription quantity must be 1"))
      else ok tt

-- `if let Some(stock) = self.stock && quantity > stock`
abbrev check_stock : Option ℤ → ℤ → Result (Unit {0})
check_stock none quantity = ok tt
check_stock (some stock) quantity =
    if ltb_ℤ stock quantity
    then err (conflict (format "insufficient stock: only {} available" (int stock ∷ [])))
    else ok tt

unfoldable pub ensure_purchasable : Product → ℤ → Result (Unit {0})
unfolding ensure_line_quantity
ensure_purchasable p quantity =
    if not p.is_active
    then err (bad_request (plain "product is not available"))
    else do ensure_line_quantity p quantity; check_stock p.stock quantity

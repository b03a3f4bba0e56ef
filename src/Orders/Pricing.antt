-- ===== src/Orders/Pricing.antt =====
-- src/modules/orders/pricing.rs: the price of a cart, in `i64` cents.
pub mod Subtotal
pub mod Settle
pub mod Outcome
use dream_fly_backend.Prelude.{
  ℤ, pos, ◌+ℤ◌, ◌-ℤ◌, ◌*ℤ◌, ◌/ℤ◌, min_ℤ, ◌+i64◌, ◌-i64◌, ◌*i64◌, wrap_word, check_word,
  checked_add_i64, String, Bool, Option, none, some, List, [], ◌∷◌, ◌++◌, if◌then◌else◌,
}
use dream_fly_backend.Base.{Uuid}
use dream_fly_backend.AppError.{Result, ok, ◌>>=◌, ok_or, AppError, validation, plain}
use dream_fly_backend.Cart.Model.{CheckoutLine, checked_line_subtotal}
use dream_fly_backend.Coupons.Model.{Coupon}
use dream_fly_backend.Points.Model.{
  LedgerDelta, delta_checkout_redeem, delta_checkout_earn, push_positive,
}
use dream_fly_backend.Orders.Fulfilment.{PurchasableCart}

pub record PricingOutcome : Type 0 where
  pub subtotal_cents : ℤ
  pub discount_cents : ℤ
  pub applied_coupon_code : Option String
  pub points_used : ℤ
  pub total_cents : ℤ
  pub points_earned : ℤ

unfoldable pub ledger_deltas : PricingOutcome → Uuid → List LedgerDelta
unfolding delta_checkout_redeem delta_checkout_earn
ledger_deltas o order =
    push_positive o.points_used (delta_checkout_redeem o.points_used order)
    ++ push_positive o.points_earned (delta_checkout_earn o.points_earned order)

unfoldable pub clamp_coupon_discount : ℤ → ℤ → ℤ
clamp_coupon_discount coupon_cents subtotal_cents = min_ℤ coupon_cents subtotal_cents

abbrev pub total_overflow : AppError
total_overflow = validation (plain "order total overflow")

-- The loop of step 1, over the lines left and the running sum.
unfoldable pub subtotal_from : ℤ → List CheckoutLine → Result ℤ
unfolding checked_line_subtotal
subtotal_from sum [] = ok sum
subtotal_from sum (item ∷ items) = do
  line ← ok_or (checked_line_subtotal item.price_cents item.quantity) total_overflow
  sum' ← ok_or (checked_add_i64 sum line) total_overflow
  subtotal_from sum' items

unfoldable pub coupon_discount : Option Coupon → ℤ → ℤ
unfolding clamp_coupon_discount
coupon_discount none subtotal = pos 0
coupon_discount (some c) subtotal = clamp_coupon_discount c.discount_cents subtotal

abbrev pub coupon_code : Option Coupon → Option String
coupon_code none = none
coupon_code (some c) = some c.code

-- Step 4.
unfoldable pub points_to_use : ℤ → ℤ → Bool → ℤ
points_to_use after_coupon balance use_points =
    if use_points then min_ℤ balance (after_coupon /ℤ 100) else pos 0

-- The second half of step 5: 5 percent of whole dollars, rounded to the nearest point.
unfoldable pub points_for_total : ℤ → ℤ
points_for_total total_cents = ((total_cents /ℤ 100) *i64 pos 5 +i64 pos 50) /ℤ 100

-- Steps 2 to 5.
unfoldable pub settle : ℤ → Option Coupon → ℤ → Bool → PricingOutcome
unfolding coupon_discount points_to_use points_for_total
settle subtotal coupon balance use_points =
    let discount = coupon_discount coupon subtotal in
    let after_coupon = subtotal -i64 discount in
    let points_used = points_to_use after_coupon balance use_points in
    let total = after_coupon -i64 points_used *i64 pos 100 in
    record {
      subtotal_cents = subtotal;
      discount_cents = discount;
      applied_coupon_code = coupon_code coupon;
      points_used = points_used;
      total_cents = total;
      points_earned = points_for_total total;
    }

unfoldable pub price : PurchasableCart → Option Coupon → ℤ → Bool → Result PricingOutcome
unfolding subtotal_from settle
price cart coupon balance use_points = do
  subtotal ← subtotal_from (pos 0) cart.lines
  ok (settle subtotal coupon balance use_points)

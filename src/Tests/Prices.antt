-- ===== src/Tests/Prices.antt =====
-- Prices, status changes and gates at concrete inputs.
use dream_fly_backend.Prelude.{
  String, ◌≡◌, refl, ◌≤◌, ◌<◌, ◌*◌, ◌+◌, ◌↔◌, pos, ◌+ℤ◌, ◌*ℤ◌, ◌≤ℤ◌, ◌<ℤ◌, ◌⊎◌, neg_part, ltb,
  i64_half, true, false, some, [], ◌∷◌, arith, inr, if◌then◌else◌, map,
}
use dream_fly_backend.AppError.{ok, err}
use dream_fly_backend.Cart.Model.{product_id, course_id}
use dream_fly_backend.Orders.Fulfilment.{PurchasableCart, plan, ensure_all_purchasable}
use dream_fly_backend.Orders.Fulfilment.Gate.{
  ensure_all_purchasable-eq, plan-targets, targets, of_products,
}
use dream_fly_backend.Orders.Model.{
  can_transition_to, paid, refunded, pending, status_str, status_from_str, is_revenue,
}
use dream_fly_backend.Orders.Model.Spelling.{status_from_str_iff}
use dream_fly_backend.Orders.Pricing.{clamp_coupon_discount, PricingOutcome, price, total_overflow}
use dream_fly_backend.Orders.Pricing.Subtotal.{cart_value}
use dream_fly_backend.Orders.Pricing.Settle.{outcome_of}
use dream_fly_backend.Orders.Pricing.Outcome.{
  price-eq, price_balances, price_earns_nearest, price_redeems_all, IsPayable,
}
use dream_fly_backend.Orders.Refund.{decide_transition, no_op, flip, flip_and_compensate}
use dream_fly_backend.Orders.Refund.Life.{terminal_absorbs, decide_transition-decides, requests}
use dream_fly_backend.Base.{Instant}
use dream_fly_backend.Coupons.Service.{CouponValidateResponse, validate_coupon}
use dream_fly_backend.Db.Pool as Pool
use dream_fly_backend.Orders.Preview.{validate_coupon-price}
use dream_fly_backend.Tests.{shop, noon, lines, ten_off}
use dream_fly_backend.Tests.Opened.{opened}

abbrev cart : PurchasableCart
cart = record { lines = lines }

abbrev outcome : PricingOutcome
outcome = record {
  subtotal_cents = pos 220_000;
  discount_cents = pos 1_000;
  applied_coupon_code = some "TEN";
  points_used = pos 1_000;
  total_cents = pos 119_000;
  points_earned = pos 60;
}

cart_priced : price cart (some ten_off) (pos 1_000) true ≡ ok outcome
unfolding opened
cart_priced = refl

terminal_absorbs_example : requests refunded (paid ∷ pending ∷ []) ≡ refunded
terminal_absorbs_example = terminal_absorbs refunded (paid ∷ pending ∷ []) (inr refl)

decide_transition-decides_example :
    ((decide_transition paid refunded ≡ ok no_op) ↔ (paid ≡ refunded))
    × ((decide_transition paid refunded ≡ ok flip)
        ↔ ((can_transition_to paid refunded ≡ true) × (is_revenue refunded ≡ is_revenue paid)))
    × ((decide_transition paid refunded ≡ ok flip_and_compensate) ↔ (
        (can_transition_to paid refunded ≡ true)
        × (is_revenue paid ≡ true)
        × (is_revenue refunded ≡ false)))
decide_transition-decides_example = decide_transition-decides paid refunded

status_from_str_iff_example : (status_from_str "paid" ≡ some paid) ↔ (status_str paid ≡ "paid")
status_from_str_iff_example = status_from_str_iff "paid" paid

payable : IsPayable cart (some ten_off) (pos 1_000)
payable = record { priced = ground arith; charged = ground arith; balance_ge = ground arith }

price-eq_example : price cart (some ten_off) (pos 1_000) true ≡ (
    if ltb 220_000 i64_half
    then ok (outcome_of 220_000 (some ten_off) 1_000 true)
    else err total_overflow)
price-eq_example = price-eq cart (some ten_off) (pos 1_000) true payable

price_balances_example :
    (pos 119_000 +ℤ pos 1_000 +ℤ pos 1_000 *ℤ pos 100 ≡ pos 220_000)
    × (pos 220_000 ≡ pos (cart_value lines))
    × (pos 0 ≤ℤ pos 1_000)
    × (pos 0 ≤ℤ pos 119_000)
    × (pos 0 ≤ℤ pos 1_000)
    × (pos 1_000 ≤ℤ pos 1_000)
price_balances_example =
    price_balances cart (some ten_off) (pos 1_000) true {o = outcome} payable cart_priced

price_earns_nearest_example :
    (neg_part outcome.points_earned ≡ 0) × (60 * 100 ≤ 1_190 * 5 + 50) × (1_190 * 5 < 60 * 100 + 50)
price_earns_nearest_example =
    price_earns_nearest cart (some ten_off) (pos 1_000) true {o = outcome} payable cart_priced

plan-targets_example :
    (map (λ p. p.product_id) (plan cart).products ≡ targets product_id lines)
    × (map (λ p. p.quantity) (plan cart).products ≡ of_products (λ l. l.quantity) lines)
    × (map (λ p. p.price_cents) (plan cart).products ≡ of_products (λ l. l.price_cents) lines)
    × (map (λ p. p.name) (plan cart).products ≡ of_products (λ l. l.name) lines)
    × ((plan cart).course_ids ≡ targets course_id lines)
plan-targets_example = plan-targets cart

ensure_all_purchasable-eq_example : ensure_all_purchasable lines ≡ ok cart
ensure_all_purchasable-eq_example = ensure_all_purchasable-eq lines

price_redeems_all_example : (pos 1_000 ≡ pos 1_000) ⊎ (pos 119_000 <ℤ pos 100)
price_redeems_all_example =
    price_redeems_all cart (some ten_off) (pos 1_000) {o = outcome} payable cart_priced

abbrev same_text : String → String
same_text s = s

abbrev one_day : Instant → String
one_day t = "20261126"

abbrev preview : CouponValidateResponse
preview = record {
  code = "TEN";
  discount_cents = pos 1_000;
  applied_discount_cents = some (pos 1_000);
}

validate_coupon-price_example :
    (some (pos 1_000) ≡ some outcome.discount_cents) × (some "TEN" ≡ outcome.applied_coupon_code)
unfolding opened clamp_coupon_discount validate_coupon Pool.◌>>=◌ Pool.reject_if Pool.query_or
    Pool.some_or
validate_coupon-price_example =
    validate_coupon-price same_text one_day " TEN " noon shop shop shop cart (pos 1_000) true
      {c = ten_off} {r = preview} {o = outcome} refl cart_priced refl

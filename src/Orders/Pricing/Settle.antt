-- ===== src/Orders/Pricing/Settle.antt =====
-- Steps 2 to 5 of `price`, on a subtotal, a coupon and a balance that are not negative.
use dream_fly_backend.Prelude.{
  ℕ, ◌+◌, ◌-◌, ◌*◌, ◌/◌, ◌≤◌, ◌<◌, min, ◌≡◌, refl, pos, pos_part, ◌≤ℤ◌, Bool, true, false, Option,
  some, none, arith, if◌then◌else◌, i64_half, nonneg_eq, add_i64_pos, sub_i64_pos, mul_i64_pos,
  div_pos, min_pos,
}
use dream_fly_backend.Coupons.Model.{Coupon}
use dream_fly_backend.Orders.Pricing.{
  PricingOutcome, coupon_discount, points_to_use, points_for_total, settle, coupon_code,
}

abbrev pub IsCharged : Option Coupon → Type 0
IsCharged none = Unit
IsCharged (some c) = pos 0 ≤ℤ c.discount_cents

-- The same steps on natural numbers, where nothing can wrap and `-` never passes 0.
abbrev pub discount_of : Option Coupon → ℕ → ℕ
discount_of none s = 0
discount_of (some c) s = min (pos_part c.discount_cents) s

abbrev pub points_of : ℕ → ℕ → Bool → ℕ
points_of after balance use_points = if use_points then min balance (after / 100) else 0

abbrev pub earned_of : ℕ → ℕ
earned_of total = (total / 100 * 5 + 50) / 100

coupon_discount-eq :
    (c : Option Coupon) (s : ℕ) → IsCharged c → coupon_discount c (pos s) ≡ pos (discount_of c s)
unfolding coupon_discount
coupon_discount-eq none s h = refl
coupon_discount-eq (some c) s h =
    rw (nonneg_eq c.discount_cents h) (min_pos (pos_part c.discount_cents) s)

pub discount_of-le : (c : Option Coupon) (s : ℕ) → discount_of c s ≤ s
discount_of-le none s = omega arith
discount_of-le (some c) s = omega arith

points_to_use-eq : (a b : ℕ) (u : Bool) → points_to_use (pos a) (pos b) u ≡ pos (points_of a b u)
unfolding points_to_use
points_to_use-eq a b true = rw (div_pos a 100) (min_pos b (a / 100))
points_to_use-eq a b false = refl

pub points_of-le : (a b : ℕ) (u : Bool) → points_of a b u * 100 ≤ a
points_of-le a b true = omega arith
points_of-le a b false = omega arith

points_for_total-eq : (t : ℕ) → t < i64_half → points_for_total (pos t) ≡ pos (earned_of t)
unfolding points_for_total
points_for_total-eq t h =
    rw
      (
        div_pos t 100,
        mul_i64_pos (t / 100) 5 (omega arith),
        add_i64_pos (t / 100 * 5) 50 (omega arith),
      )
      (div_pos (t / 100 * 5 + 50) 100)

abbrev pub outcome_of : ℕ → Option Coupon → ℕ → Bool → PricingOutcome
outcome_of s c b u =
    let after = s - discount_of c s in
    let used = points_of after b u in
    let total = after - used * 100 in
    record {
      subtotal_cents = pos s;
      discount_cents = pos (discount_of c s);
      applied_coupon_code = coupon_code c;
      points_used = pos used;
      total_cents = pos total;
      points_earned = pos (earned_of total);
    }

pub settle-eq :
    (s : ℕ) (c : Option Coupon) (b : ℕ) (u : Bool)
    → s < i64_half
    → IsCharged c
    → settle (pos s) c (pos b) u ≡ outcome_of s c b u
unfolding settle
settle-eq s c b u h k =
    let after = s - discount_of c s in
    let used = points_of after b u in
    let fits : used * 100 ≤ after = points_of-le after b u in
    rw (
      coupon_discount-eq c s k,
      sub_i64_pos s (discount_of c s) (discount_of-le c s) h,
      points_to_use-eq after b u,
      mul_i64_pos used 100 (omega arith),
      sub_i64_pos after (used * 100) fits (omega arith),
      points_for_total-eq (after - used * 100) (omega arith),
    )

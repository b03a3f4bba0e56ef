-- ===== src/Orders/Pricing/Outcome.antt =====
-- What `price` promises of its outcome, for carts, coupons and balances that are not negative.
use dream_fly_backend.Prelude.{
  ◌+◌, ◌-◌, ◌*◌, ◌/◌, ◌≤◌, ◌<◌, ◌≡◌, refl, ℤ, pos, pos_part, neg_part, ◌≤ℤ◌, ◌<ℤ◌, ◌+ℤ◌, ◌*ℤ◌, Bool,
  true, false, Option, arith, if◌then◌else◌, i64_half, nonneg_eq, ltb, ap, ◌⊎◌, inl, inr, add_pos,
  mul_pos, All, Bool-cases,
}
use dream_fly_backend.AppError.{ok, err}
use dream_fly_backend.Coupons.Model.{Coupon}
use dream_fly_backend.Orders.Fulfilment.{PurchasableCart}
use dream_fly_backend.Orders.Pricing.{PricingOutcome, price, total_overflow}
use dream_fly_backend.Orders.Pricing.Subtotal.{
  IsPriced, cart_value, subtotal_from-ok, subtotal_from-overflow,
}
use dream_fly_backend.Orders.Pricing.Settle.{
  IsCharged, discount_of, discount_of-le, points_of, points_of-le, outcome_of, settle-eq,
}

-- The conditions of every statement below: nothing that is charged is negative.
pub record IsPayable (cart : PurchasableCart) (c : Option Coupon) (balance : ℤ) : Type 0 where
  pub priced : All IsPriced cart.lines
  pub charged : IsCharged c
  pub balance_ge : pos 0 ≤ℤ balance

module _ (cart : PurchasableCart) (c : Option Coupon) (balance : ℤ) (u : Bool) where
  -- If no price, quantity, coupon or balance is negative, `price` fails exactly when the exact value
  -- of the cart is not an `i64`, always with the overflow error, and otherwise its outcome is the one
  -- that the same steps give on unbounded natural numbers: no operation wraps.
  pub price-eq :
      IsPayable cart c balance
      → price cart c balance u ≡ (
          if ltb (cart_value cart.lines) i64_half
          then ok (outcome_of (cart_value cart.lines) c (pos_part balance) u)
          else err total_overflow)
  unfolding price
  price-eq h = elim (Bool-cases (ltb (cart_value cart.lines) i64_half)) [
    | inl fits ↦ rw fits (
        rw (subtotal_from-ok 0 cart.lines h.priced (ground arith), nonneg_eq balance h.balance_ge)
          (ground (arith, settle-eq (cart_value cart.lines) c (pos_part balance) u)))
    | inr big ↦
        rw big (rw (subtotal_from-overflow 0 cart.lines h.priced (omega arith) (ground arith)) refl)
  ]

  price-outcome :
      {o : PricingOutcome}
      → IsPayable cart c balance
      → price cart c balance u ≡ ok o
      → (o ≡ outcome_of (cart_value cart.lines) c (pos_part balance) u)
        × (cart_value cart.lines < i64_half)
  price-outcome h e = ground (arith, price-eq h)

  -- The accounts of a priced cart, if nothing charged is negative: the total, the discount and the
  -- points used (100 cents each) add up to the subtotal, which is the exact value of the cart; none
  -- of them is negative, and no more points are used than the balance holds.
  pub price_balances :
      {o : PricingOutcome}
      → IsPayable cart c balance
      → price cart c balance u ≡ ok o
      → (o.total_cents +ℤ o.discount_cents +ℤ o.points_used *ℤ pos 100 ≡ o.subtotal_cents)
        × (o.subtotal_cents ≡ pos (cart_value cart.lines))
        × (pos 0 ≤ℤ o.discount_cents)
        × (pos 0 ≤ℤ o.total_cents)
        × (pos 0 ≤ℤ o.points_used)
        × (o.points_used ≤ℤ balance)
  price_balances h e =
      let s = cart_value cart.lines in
      let b = pos_part balance in
      let off = discount_of c s in
      let used = points_of (s - off) b u in
      let total = s - off - used * 100 in
      let le : used * 100 ≤ s - off = points_of-le (s - off) b u in
      let sum : pos total +ℤ pos off +ℤ pos used *ℤ pos 100 ≡ pos s =
        rw (mul_pos used 100, add_pos total off, add_pos (total + off) (used * 100))
          (ap pos (omega (arith, discount_of-le c s))) in
      rw (price-outcome h e).0
        (sum, refl, omega arith, omega arith, omega arith, points_used-le h.balance_ge)
    where
      points_used-le :
          pos 0 ≤ℤ balance
          → pos (
              points_of
                (cart_value cart.lines - discount_of c (cart_value cart.lines))
                (pos_part balance)
                u)
            ≤ℤ balance
      points_used-le h = ground arith

  -- Redeeming takes as much as it can, if nothing charged is negative: with `use_points` either the
  -- whole balance is used or less than one point's worth (100 cents) is left to pay, and without it
  -- no points are used.
  pub price_redeems_most :
      {o : PricingOutcome}
      → IsPayable cart c balance
      → price cart c balance u ≡ ok o
      → (u ≡ true → (o.points_used ≡ balance) ⊎ (o.total_cents <ℤ pos 100))
        × (u ≡ false → o.points_used ≡ pos 0)
  price_redeems_most h e =
      rw (price-outcome h e).0 (ground (arith, nonneg_eq balance h.balance_ge), ground arith)

  -- The points earned are 5 percent of the total's whole dollars to the nearest point, a tie going
  -- up: in hundredths of a point they are within 50 of the exact value. Nothing charged is negative.
  pub price_earns_nearest :
      {o : PricingOutcome}
      → IsPayable cart c balance
      → price cart c balance u ≡ ok o
      → let dollars = pos_part o.total_cents / 100 in
        let earned = pos_part o.points_earned in
        (neg_part o.points_earned ≡ 0)
        × (earned * 100 ≤ dollars * 5 + 50)
        × (dollars * 5 < earned * 100 + 50)
  price_earns_nearest h e = rw (price-outcome h e).0 (refl, omega arith, omega arith)

-- Redeeming takes as much as it can, if nothing charged is negative: with `use_points` either the
-- whole balance is used or less than one point's worth (100 cents) is left to pay.
pub price_redeems_all :
    (cart : PurchasableCart) (c : Option Coupon) (balance : ℤ) {o : PricingOutcome}
    → IsPayable cart c balance
    → price cart c balance true ≡ ok o
    → (o.points_used ≡ balance) ⊎ (o.total_cents <ℤ pos 100)
price_redeems_all cart c balance h e = (price_redeems_most cart c balance true h e).0 refl

-- ===== src/Points/Model/Signs.antt =====
-- The signs of ledger deltas, and the tiers.
use dream_fly_backend.Prelude.{
  ◌<◌, ◌≡◌, ℤ, pos, pos_part, ◌≤ℤ◌, ◌<ℤ◌, ◌+ℤ◌, ◌-ℤ◌, neg_ℤ, neg_i64_pos, some, List, [], ◌∷◌,
  arith, All, i64_half, nonneg_eq,
}
use dream_fly_backend.Base.{Uuid}
use dream_fly_backend.Points.Model.{
  PointReason, checkout_earn, checkout_redeem, admin_adjust, redeem, refund_restore,
  refund_clawback, LedgerDelta, OrderPointsFlow, reversal_deltas, PointsTier, tier_floor,
  from_balance,
}

-- One reason has one sign, and the reasons of an order carry its id.
abbrev pub HasSign : PointReason → ℤ → Type 0
HasSign checkout_earn d = pos 0 <ℤ d
HasSign refund_restore d = pos 0 <ℤ d
HasSign checkout_redeem d = d <ℤ pos 0
HasSign redeem d = d <ℤ pos 0
HasSign refund_clawback d = d <ℤ pos 0
HasSign admin_adjust d = Unit

abbrev pub IsOrderDelta : Uuid → LedgerDelta → Type 0
IsOrderDelta order ld = HasSign ld.reason ld.delta × (ld.order_id ≡ some order)

abbrev pub sum_deltas : List LedgerDelta → ℤ
sum_deltas [] = pos 0
sum_deltas (ld ∷ lds) = ld.delta +ℤ sum_deltas lds

-- A flow of magnitudes that are `i64` and not negative.
pub record IsFlow (flow : OrderPointsFlow) : Type 0 where
  pub earned_ge : pos 0 ≤ℤ flow.earned
  pub earned_lt : pos_part flow.earned < i64_half
  pub redeemed_ge : pos 0 ≤ℤ flow.redeemed
  pub redeemed_lt : pos_part flow.redeemed < i64_half

-- The reversal of an order's flow (two magnitudes that are `i64` and not negative) writes only
-- deltas that have their reason's sign, are not zero and carry the order, and they add up to what
-- was redeemed minus what was earned.
pub reversal_deltas_signed :
    (flow : OrderPointsFlow) (order : Uuid)
    → IsFlow flow
    → All (IsOrderDelta order) (reversal_deltas flow order)
      × (sum_deltas (reversal_deltas flow order) ≡ flow.redeemed -ℤ flow.earned)
unfolding reversal_deltas neg_ℤ ◌+ℤ◌ ◌-ℤ◌
reversal_deltas_signed flow order h =
    ground
      (arith, neg_i64_pos (pos_part flow.earned), nonneg_eq flow.earned, nonneg_eq flow.redeemed)

-- A balance of zero or more is in the highest tier whose floor it reaches; one below zero is regular.
pub from_balance_greatest :
    (b : ℤ) (t : PointsTier)
    → (pos 0 ≤ℤ b → tier_floor (from_balance b) ≤ℤ b)
      × (tier_floor t ≤ℤ b → tier_floor t ≤ℤ tier_floor (from_balance b))
      × (b <ℤ pos 0 → from_balance b ≡ PointsTier.regular)
unfolding from_balance
from_balance_greatest b t = ground arith

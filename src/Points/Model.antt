-- ===== src/Points/Model.antt =====
-- src/modules/points/model.rs: point reasons, signed ledger deltas, an order's flow, and the tiers.
pub mod Signs
use dream_fly_backend.Prelude.{
  ℤ, pos, neg_i64, ltb_ℤ, leb_ℤ, String, Option, none, some, List, [], ◌∷◌, ◌++◌, find,
  if◌then◌else◌,
}
use dream_fly_backend.Base.{Uuid, Instant}

pub data PointReason : Type 0 where
  checkout_earn checkout_redeem admin_adjust redeem refund_restore refund_clawback : PointReason

unfoldable pub reason_str : PointReason → String
reason_str checkout_earn = "checkout_earn"
reason_str checkout_redeem = "checkout_redeem"
reason_str admin_adjust = "admin_adjust"
reason_str redeem = "redeem"
reason_str refund_restore = "refund_restore"
reason_str refund_clawback = "refund_clawback"

-- The fields are private in the source: a value comes from one of the six functions below.
pub record LedgerDelta : Type 0 where
  pub delta : ℤ
  pub reason : PointReason
  pub order_id : Option Uuid

unfoldable pub delta_checkout_earn : ℤ → Uuid → LedgerDelta
delta_checkout_earn magnitude order = record {
  delta = magnitude;
  reason = checkout_earn;
  order_id = some order;
}

unfoldable pub delta_checkout_redeem : ℤ → Uuid → LedgerDelta
delta_checkout_redeem magnitude order = record {
  delta = neg_i64 magnitude;
  reason = checkout_redeem;
  order_id = some order;
}

unfoldable pub delta_redeem : ℤ → LedgerDelta
delta_redeem magnitude = record { delta = neg_i64 magnitude; reason = redeem; order_id = none }

unfoldable pub delta_refund_restore : ℤ → Uuid → LedgerDelta
delta_refund_restore magnitude order = record {
  delta = magnitude;
  reason = refund_restore;
  order_id = some order;
}

unfoldable pub delta_refund_clawback : ℤ → Uuid → LedgerDelta
delta_refund_clawback magnitude order = record {
  delta = neg_i64 magnitude;
  reason = refund_clawback;
  order_id = some order;
}

unfoldable pub delta_admin_adjust : ℤ → LedgerDelta
delta_admin_adjust signed = record { delta = signed; reason = admin_adjust; order_id = none }

-- `if magnitude > 0 { deltas.push(..) }`
abbrev pub push_positive : ℤ → LedgerDelta → List LedgerDelta
push_positive magnitude ld = if ltb_ℤ (pos 0) magnitude then ld ∷ [] else []

pub record OrderPointsFlow : Type 0 where
  pub earned : ℤ
  pub redeemed : ℤ

unfoldable pub reversal_deltas : OrderPointsFlow → Uuid → List LedgerDelta
unfolding delta_refund_restore delta_refund_clawback
reversal_deltas flow order =
    push_positive flow.redeemed (delta_refund_restore flow.redeemed order)
    ++ push_positive flow.earned (delta_refund_clawback flow.earned order)

pub data PointsTier : Type 0 where
  regular bronze silver gold : PointsTier

unfoldable pub tier_floor : PointsTier → ℤ
tier_floor regular = pos 0
tier_floor bronze = pos 500
tier_floor silver = pos 2_000
tier_floor gold = pos 5_000

-- `ALL.iter().rev().find(..)`
abbrev PointsTier_rev : List PointsTier
PointsTier_rev = gold ∷ silver ∷ bronze ∷ regular ∷ []

abbrev or_regular : Option PointsTier → PointsTier
or_regular none = regular
or_regular (some t) = t

unfoldable pub from_balance : ℤ → PointsTier
unfolding tier_floor
from_balance balance = or_regular (find (λ tier. leb_ℤ (tier_floor tier) balance) PointsTier_rev)

-- A `point_ledger` row.
pub record LedgerRow : Type 0 where
  pub user_id : Uuid
  pub delta : ℤ
  pub reason : PointReason
  pub order_id : Option Uuid
  pub created_at : Instant

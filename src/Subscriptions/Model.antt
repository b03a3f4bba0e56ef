-- ===== src/Subscriptions/Model.antt =====
-- src/modules/subscriptions/model.rs, and the SQL function `subscription_derived_status`.
use dream_fly_backend.Prelude.{
  ℤ, pos, leb_ℤ, eqb_ℤ, Bool, false, ◌||◌, Option, none, some, if◌then◌else◌,
}
use dream_fly_backend.Base.{Uuid, Instant}

pub data SubscriptionStatus : Type 0 where
  active expired cancelled : SubscriptionStatus

-- A row; `derived_status` is computed on reading.
pub record Subscription : Type 0 where
  pub id : Uuid
  pub user_id : Uuid
  pub product_id : Uuid
  pub order_id : Option Uuid
  pub status : SubscriptionStatus
  pub started_at : Instant
  pub expires_at : Option Instant
  pub total_sessions : Option ℤ
  pub remaining_sessions : Option ℤ
  pub price_cents : ℤ

abbrev is_past : Option Instant → Instant → Bool
is_past none now = false
is_past (some t) now = leb_ℤ t now

abbrev is_zero : Option ℤ → Bool
is_zero none = false
is_zero (some n) = eqb_ℤ n (pos 0)

-- migrations/20260708000007_subscription_derived_status.sql
unfoldable pub derived_status :
    SubscriptionStatus → Option Instant → Option ℤ → Instant → SubscriptionStatus
derived_status cancelled expires_at remaining now = cancelled
derived_status _ expires_at remaining now =
    if is_past expires_at now || is_zero remaining then expired else active

-- ===== src/Subscriptions/Entitlement.antt =====
-- src/modules/subscriptions/entitlement.rs: what a purchase grants.
use dream_fly_backend.Prelude.{ℤ, pos, ◌+ℤ◌, ◌*ℤ◌, wrap_i32, Option, none, some, if◌then◌else◌}
use dream_fly_backend.Base.{Instant}
use dream_fly_backend.Products.Model.{Product, is_entitlement}

pub record EntitlementGrant : Type 0 where
  pub total_sessions : Option ℤ
  pub remaining_sessions : Option ℤ
  pub expires_at : Option Instant

-- A day in microseconds.
abbrev pub day : ℤ
day = pos 86_400_000_000

abbrev expiry : Option ℤ → Instant → Option Instant
expiry none now = none
expiry (some days) now = some (now +ℤ days *ℤ day)

-- `session_count * quantity` on `i32` wraps in a release build.
abbrev grant_of : Option ℤ → Option ℤ → ℤ → Instant → EntitlementGrant
grant_of (some session_count) valid_days quantity now =
    let total = wrap_i32 (session_count *ℤ quantity) in
    record {
      total_sessions = some total;
      remaining_sessions = some total;
      expires_at = expiry valid_days now;
    }
grant_of none valid_days quantity now = record {
  total_sessions = none;
  remaining_sessions = none;
  expires_at = expiry valid_days now;
}

unfoldable pub plan : Product → ℤ → Instant → Option EntitlementGrant
plan product quantity now =
    if is_entitlement product.product_type
    then some (grant_of product.session_count product.valid_days quantity now)
    else none

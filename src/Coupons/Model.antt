-- ===== src/Coupons/Model.antt =====
-- src/modules/coupons/model.rs.
use dream_fly_backend.Prelude.{ℤ, String, Bool, Option}
use dream_fly_backend.Base.{Uuid, Instant}

pub record Coupon : Type 0 where
  pub id : Uuid
  pub code : String
  pub discount_cents : ℤ
  pub is_active : Bool
  pub expires_at : Option Instant

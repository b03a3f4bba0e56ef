-- ===== src/Coupons/Service.antt =====
-- src/modules/coupons/service.rs: the preview of a coupon, and its administration.
use dream_fly_backend.Prelude.{ℤ, pos, ltb_ℤ, String, Bool, false, not, Option, none, some}
use dream_fly_backend.Base.{Uuid, Instant}
use dream_fly_backend.AppError.{not_found, validation, plain, conflict_on_unique}
use dream_fly_backend.Coupons.Model.{Coupon}
use dream_fly_backend.Coupons.Repository.{find_valid_by_code, create, update, delete}
use dream_fly_backend.Db.Pool.{Pool, ◌>>=◌, ◌>>◌, pure, some_or, query, query_or, reject_if}
use dream_fly_backend.Orders.Pricing.{clamp_coupon_discount}

pub record CouponValidateResponse : Type 0 where
  pub code : String
  pub discount_cents : ℤ
  pub applied_discount_cents : Option ℤ

abbrev is_negative : Option ℤ → Bool
is_negative none = false
is_negative (some s) = ltb_ℤ s (pos 0)

abbrev applied : Coupon → Option ℤ → Option ℤ
applied c none = none
applied c (some s) = some (clamp_coupon_discount c.discount_cents s)

module _ (upper : String → String) where
  unfoldable pub validate_coupon : String → Option ℤ → Instant → Pool CouponValidateResponse
  validate_coupon code subtotal now = do
    reject_if (is_negative subtotal) (validation (plain "subtotal_cents must be >= 0"))
    found ← query (find_valid_by_code upper code now)
    coupon ← some_or found (not_found (plain "coupon not found"))
    pure (record {
      code = coupon.code;
      discount_cents = coupon.discount_cents;
      applied_discount_cents = applied coupon subtotal;
    })

  unfoldable pub create_coupon : String → ℤ → Option Instant → Pool Coupon
  create_coupon code discount expires_at =
      query_or (λ e. conflict_on_unique e (plain "coupon code already exists"))
        (create upper code discount expires_at)

unfoldable pub update_coupon : Uuid → Option ℤ → Option Bool → Option (Option Instant) → Pool Coupon
update_coupon id discount active expires_at = do
  found ← query (update id discount active expires_at)
  some_or found (not_found (plain "coupon not found"))

unfoldable pub delete_coupon : Uuid → Pool (Unit {0})
delete_coupon id = do
  deleted ← query (delete id)
  reject_if (not deleted) (not_found (plain "coupon not found"))

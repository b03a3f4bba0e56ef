-- ===== src/Extractors/Auth.antt =====
-- src/extractors/auth.rs: the checks of roles and of ownership.
use text.Mathlib.Text.{◌==◌ as str_eq}
use dream_fly_backend.Prelude.{String, Bool, ◌||◌, List, any, if◌then◌else◌, ◌==◌}
use dream_fly_backend.Base.{Uuid}
use dream_fly_backend.AppError.{Result, ok, err, forbidden, not_found, plain}

-- src/modules/permissions/model.rs
pub data Role : Type 0 where
  admin coach member guest : Role

unfoldable pub role_str : Role → String
role_str admin = "admin"
role_str coach = "coach"
role_str member = "member"
role_str guest = "guest"

pub record AuthUser : Type 0 where
  pub user_id : Uuid
  pub email : String
  pub roles : List String

unfoldable pub has_role : AuthUser → Role → Bool
unfolding role_str
has_role auth role = any (λ r. str_eq r (role_str role)) auth.roles

unfoldable pub require_role : AuthUser → Role → Result (Unit {0})
unfolding has_role
require_role auth role =
    if has_role auth role then ok tt else err (forbidden (plain "insufficient permissions"))

unfoldable pub require_any_role : AuthUser → List Role → Result (Unit {0})
unfolding has_role
require_any_role auth roles =
    if any (has_role auth) roles then ok tt else err (forbidden (plain "insufficient permissions"))

unfoldable pub is_admin : AuthUser → Bool
unfolding has_role
is_admin auth = has_role auth admin

unfoldable pub owns_or_admin : AuthUser → Uuid → String → Result (Unit {0})
unfolding is_admin
owns_or_admin auth owner_id forbidden_msg =
    if (auth.user_id == owner_id) || is_admin auth
    then ok tt
    else err (forbidden (plain forbidden_msg))

unfoldable pub owns_or_admin_masked : AuthUser → Uuid → String → Result (Unit {0})
unfolding is_admin
owns_or_admin_masked auth owner_id not_found_msg =
    if (auth.user_id == owner_id) || is_admin auth
    then ok tt
    else err (not_found (plain not_found_msg))

unfoldable pub owner_only : AuthUser → Uuid → String → Result (Unit {0})
owner_only auth owner_id forbidden_msg =
    if auth.user_id == owner_id then ok tt else err (forbidden (plain forbidden_msg))

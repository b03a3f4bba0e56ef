-- ===== src/Courses/Model.antt =====
-- src/modules/courses/model.rs: the course row, and the rules of a course line.
use dream_fly_backend.Prelude.{
  ℤ, pos, ltb_ℤ, leb_ℤ, eqb_ℤ, String, Bool, not, ◌&&◌, Option, none, some, if◌then◌else◌,
}
use dream_fly_backend.Base.{Uuid}
use dream_fly_backend.AppError.{Result, ok, err, ◌>>◌, bad_request, validation, plain}

-- The columns that the modelled code reads or writes.
pub record Course : Type 0 where
  pub id : Uuid
  pub name : String
  pub price_cents : ℤ
  pub max_students : ℤ
  pub is_active : Bool
  pub coach_id : Option Uuid

unfoldable pub ensure_course_quantity : ℤ → Result (Unit {0})
ensure_course_quantity quantity =
    if not (eqb_ℤ quantity (pos 1))
    then err (validation (plain "course quantity must be 1"))
    else ok tt

unfoldable pub ensure_course_purchasable : Course → Result (Unit {0})
ensure_course_purchasable c =
    if not c.is_active then err (bad_request (plain "course is not available")) else ok tt

-- The fields are private in the source: `new` is the only constructor.
pub record AgeRange : Type 0 where
  pub min_age : Option ℤ
  pub max_age : Option ℤ

abbrev check_age : Option ℤ → String → Result (Unit {0})
check_age none message = ok tt
check_age (some age) message =
    if not (leb_ℤ (pos 0) age && leb_ℤ age (pos 150))
    then err (validation (plain message))
    else ok tt

abbrev check_ages : Option ℤ → Option ℤ → Result (Unit {0})
check_ages (some low) (some high) =
    if ltb_ℤ high low
    then err (validation (plain "min_age must be less than or equal to max_age"))
    else ok tt
check_ages _ _ = ok tt

unfoldable pub age_range_new : Option ℤ → Option ℤ → Result AgeRange
age_range_new min_age max_age = do
  check_age min_age "min_age must be between 0 and 150"
  check_age max_age "max_age must be between 0 and 150"
  check_ages min_age max_age
  ok (record { min_age = min_age; max_age = max_age })

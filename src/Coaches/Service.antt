-- ===== src/Coaches/Service.antt =====
-- src/modules/coaches/service.rs: who is which coach, and the gate of a course's coach.
use dream_fly_backend.Prelude.{String, Bool, false, Option, some, find, ◌==◌, if◌then◌else◌, not}
use dream_fly_backend.Base.{Uuid}
use dream_fly_backend.AppError.{forbidden, plain}
use dream_fly_backend.Coaches.Model.{Coach}
use dream_fly_backend.Db.{Sql, select}
use dream_fly_backend.Db.Pool.{Pool, ◌>>=◌, pure, query, reject_if}
use dream_fly_backend.Extractors.Auth.{AuthUser, is_admin}

abbrev is_coach_user : Uuid → Coach → Bool
is_coach_user user c = c.user_id == user

-- src/modules/coaches/repository.rs
unfoldable pub find_by_user_id : Uuid → Sql (Option Coach)
find_by_user_id user = select λ db. find (is_coach_user user) db.coaches

unfoldable pub resolve : AuthUser → Pool (Option Coach)
resolve auth = query (find_by_user_id auth.user_id)

abbrev pub is_owner : Option Coach → Option Uuid → Bool
is_owner (some coach) (some course_coach) = coach.id == course_coach
is_owner _ _ = false

unfoldable pub require_course_coach : AuthUser → Option Uuid → String → Pool (Unit {0})
require_course_coach auth course_coach msg = if is_admin auth then pure tt else do
  coach ← resolve auth
  reject_if (not (is_owner coach course_coach)) (forbidden (plain msg))

-- ===== src/Sessions/Model.antt =====
-- src/modules/sessions/model.rs: a course session's row.
use dream_fly_backend.Prelude.{ℕ, ℤ, String, Option}
use dream_fly_backend.Base.{Uuid}

-- A date is its day number, a time of day its second: `NaiveDate` and `NaiveTime`.
pub record CourseSession : Type 0 where
  pub id : Uuid
  pub course_id : Uuid
  pub session_date : ℤ
  pub start_time : ℕ
  pub end_time : ℕ
  pub venue : Option String

-- A `course_schedule_slots` row: `day_of_week` counts from Sunday, 0.
pub record ScheduleSlot : Type 0 where
  pub course_id : Uuid
  pub day_of_week : ℕ
  pub start_time : ℕ
  pub end_time : ℕ
  pub venue : Option String

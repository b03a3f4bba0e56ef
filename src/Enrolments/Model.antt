-- ===== src/Enrolments/Model.antt =====
-- src/modules/enrolments/model.rs.
use dream_fly_backend.Prelude.{Bool, true, false, Option}
use dream_fly_backend.Base.{Uuid, Instant}

pub data EnrolmentStatus : Type 0 where
  active cancelled : EnrolmentStatus

abbrev pub is_active : EnrolmentStatus → Bool
is_active active = true
is_active cancelled = false

pub record Enrolment : Type 0 where
  pub id : Uuid
  pub user_id : Uuid
  pub course_id : Uuid
  pub order_id : Option Uuid
  pub status : EnrolmentStatus
  pub enrolled_at : Instant

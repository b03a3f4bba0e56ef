-- ===== src/Waitlist/Model.antt =====
-- src/modules/waitlist/model.rs
use dream_fly_backend.Prelude.{Bool, true, false, String}
use dream_fly_backend.Base.{Uuid}

pub data WaitlistStatus : Type 0 where
  waiting cancelled : WaitlistStatus

abbrev pub is_waiting : WaitlistStatus → Bool
is_waiting waiting = true
is_waiting cancelled = false

unfoldable pub waitlist_status_str : WaitlistStatus → String
waitlist_status_str waiting = "waiting"
waitlist_status_str cancelled = "cancelled"

pub record WaitlistEntry : Type 0 where
  pub id : Uuid
  pub user_id : Uuid
  pub course_id : Uuid
  pub status : WaitlistStatus

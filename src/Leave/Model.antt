-- ===== src/Leave/Model.antt =====
-- src/modules/leave/model.rs: leave requests.
use dream_fly_backend.Prelude.{ℤ, String, Bool, true, false, Option}
use dream_fly_backend.Base.{Uuid}

pub data LeaveStatus : Type 0 where
  pending approved rejected cancelled : LeaveStatus

abbrev pub is_pending : LeaveStatus → Bool
is_pending pending = true
is_pending _ = false

abbrev pub is_approved : LeaveStatus → Bool
is_approved approved = true
is_approved _ = false

-- A `leave_requests` row.
pub record LeaveRequest : Type 0 where
  pub id : Uuid
  pub enrolment_id : Uuid
  pub session_id : Uuid
  pub reason : Option String
  pub status : LeaveStatus
  pub makeup_session_id : Option Uuid
  pub decided_by : Option Uuid

abbrev pub is_live : LeaveStatus → Bool
is_live pending = true
is_live approved = true
is_live _ = false

-- What deciding on a request reads.
pub record LeaveDecisionContext : Type 0 where
  pub status : LeaveStatus
  pub user_id : Uuid
  pub course_name : String
  pub coach_id : Option Uuid
  pub session_date : ℤ
  pub enrolment_active : Bool

-- What booking a makeup reads.
pub record LeaveRequestForMakeup : Type 0 where
  pub id : Uuid
  pub session_id : Uuid
  pub user_id : Uuid
  pub course_id : Uuid
  pub status : LeaveStatus
  pub makeup_session_id : Option Uuid
  pub enrolment_active : Bool

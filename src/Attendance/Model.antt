-- ===== src/Attendance/Model.antt =====
-- src/modules/attendance/model.rs
use dream_fly_backend.Prelude.{String, Bool, true, false, Option, List, [], ◌∷◌, from_str}
use dream_fly_backend.Base.{Uuid}

pub data AttendanceStatus : Type 0 where
  present absent leave : AttendanceStatus

abbrev AttendanceStatus_all : List AttendanceStatus
AttendanceStatus_all = present ∷ absent ∷ leave ∷ []

unfoldable pub attendance_str : AttendanceStatus → String
attendance_str present = "present"
attendance_str absent = "absent"
attendance_str leave = "leave"

unfoldable pub attendance_from_str : String → Option AttendanceStatus
unfolding attendance_str
attendance_from_str = from_str attendance_str AttendanceStatus_all

abbrev pub is_leave_mark : AttendanceStatus → Bool
is_leave_mark leave = true
is_leave_mark _ = false

-- An `attendance_records` row.
pub record AttendanceRecord : Type 0 where
  pub id : Uuid
  pub session_id : Uuid
  pub enrolment_id : Uuid
  pub status : AttendanceStatus
  pub marked_by : Uuid

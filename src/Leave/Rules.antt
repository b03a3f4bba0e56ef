-- ===== src/Leave/Rules.antt =====
-- src/modules/leave/rules.rs: the decisions on leave requests and makeups, without a database.
use dream_fly_backend.Prelude.{String, Bool, ◌&&◌, not, if◌then◌else◌, ◌==◌, is_some}
use dream_fly_backend.AppError.{AppError, Result, ok, err, ◌>>◌, conflict, validation, plain}
use dream_fly_backend.Leave.Model.{
  LeaveStatus, approved, rejected, is_pending, is_approved, LeaveDecisionContext,
  LeaveRequestForMakeup,
}
use dream_fly_backend.Sessions.Model.{CourseSession}
use dream_fly_backend.StudioClock.{StudioNow, require_not_started}
use text.Mathlib.Text.{◌==◌ as str_eq}

abbrev pub decide_not_pending : AppError
decide_not_pending = conflict (plain "僅待審核假單可審核")

abbrev pub makeup_already_booked : AppError
makeup_already_booked = conflict (plain "此假單已預約過補課")

unfoldable pub parse_decision : String → Result LeaveStatus
parse_decision text =
    if str_eq text "approved"
    then ok approved
    else if str_eq text "rejected"
    then ok rejected
    else err (validation (plain "status 僅接受 approved 或 rejected"))

-- `if c { return Err(e); }`
abbrev pub fail_if : Bool → AppError → Result (Unit {0})
fail_if c e = if c then err e else ok tt

unfoldable pub check_decidable : LeaveDecisionContext → LeaveStatus → Result (Unit {0})
check_decidable ctx decision = do
  fail_if (not (is_pending ctx.status)) decide_not_pending
  fail_if (is_approved decision && not ctx.enrolment_active) (conflict (plain "報名已取消，無法核准請假"))

unfoldable pub check_makeup_source : LeaveRequestForMakeup → Result (Unit {0})
check_makeup_source leave = do
  fail_if (not (is_approved leave.status)) (conflict (plain "僅已核准的假單可預約補課"))
  fail_if (is_some leave.makeup_session_id) makeup_already_booked
  fail_if (not leave.enrolment_active) (conflict (plain "報名已取消，無法預約補課"))

unfoldable pub check_makeup_target :
    LeaveRequestForMakeup → CourseSession → StudioNow → Result (Unit {0})
check_makeup_target leave target at = do
  fail_if (not (target.course_id == leave.course_id)) (validation (plain "補課場次須為同一課程"))
  fail_if (target.id == leave.session_id) (validation (plain "補課場次不可為請假場次"))
  require_not_started at target.session_date target.start_time "session time"
      (validation (plain "補課場次已開始"))

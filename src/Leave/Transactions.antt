-- ===== src/Leave/Transactions.antt =====
-- src/modules/leave/service.rs: the transactions of the leave requests' service.
use dream_fly_backend.Prelude.{Option, some, none}
use dream_fly_backend.Base.{Uuid}
use dream_fly_backend.AppError.{Result, not_found, conflict, plain}
use dream_fly_backend.Attendance.Records.{project_approved_leave_tx}
use dream_fly_backend.Courses.SeatQueries.{lock_session_tx, require_room_tx}
use dream_fly_backend.Db.{Db, Tx, ◌>>=◌, ◌>>◌, pure, lift, some_or, query, transaction}
use dream_fly_backend.Extractors.Auth.{AuthUser, owner_only}
use dream_fly_backend.Leave.Model.{LeaveRequest, LeaveStatus, approved}
use dream_fly_backend.Leave.Requests.{
  find_owner_tx, cancel_if_pending_tx, find_enrolment_id_tx, find_for_makeup_tx,
  set_makeup_session_tx,
}
use dream_fly_backend.Leave.Requests
use dream_fly_backend.Leave.Rules.{
  check_makeup_source, check_makeup_target, decide_not_pending, makeup_already_booked,
}
use dream_fly_backend.StudioClock.{StudioNow}

unfoldable pub cancel_body : AuthUser → Uuid → Tx (Unit {0})
cancel_body auth id = do
  found ← query (find_owner_tx id)
  owner ← some_or found (not_found (plain "請假申請不存在"))
  lift (owner_only auth owner "僅本人可取消請假申請")
  withdrawn ← query (cancel_if_pending_tx id)
  row ← some_or withdrawn (conflict (plain "僅待審核假單可取消"))
  pure tt

unfoldable pub cancel_leave_request : AuthUser → Uuid → Db → Result (Unit {0}) × Db
cancel_leave_request auth id = transaction (cancel_body auth id)

-- An approval is written into the attendance of the session.
abbrev pub project : LeaveStatus → Uuid → LeaveRequest → Uuid → Tx (Option LeaveRequest)
project approved id row who = do
  enrolment ← query (find_enrolment_id_tx id)
  project_approved_leave_tx row.session_id enrolment who
  pure (some row)
project _ id row who = pure (some row)

abbrev pub project_decided :
    LeaveStatus → Uuid → Uuid → Option LeaveRequest → Tx (Option LeaveRequest)
project_decided status id who none = pure none
project_decided status id who (some row) = project status id row who

unfoldable pub decide_tx : Uuid → LeaveStatus → Uuid → Tx (Option LeaveRequest)
decide_tx id status who = do
  updated ← query (Requests.decide_tx id status who)
  project_decided status id who updated

unfoldable pub decide_body : Uuid → LeaveStatus → Uuid → Tx LeaveRequest
decide_body id status who = do updated ← decide_tx id status who; some_or updated decide_not_pending

unfoldable pub makeup_body : StudioNow → AuthUser → Uuid → Uuid → Tx LeaveRequest
makeup_body at auth id session = do
  found ← query (find_for_makeup_tx id)
  request ← some_or found (not_found (plain "請假申請不存在"))
  lift (owner_only auth request.user_id "僅本人可預約補課")
  lift (check_makeup_source request)
  target ← query (lock_session_tx session)
  lock ← some_or target (not_found (plain "場次不存在"))
  lift (check_makeup_target request lock.session at)
  require_room_tx lock
  updated ← query (set_makeup_session_tx id session)
  some_or updated makeup_already_booked

unfoldable pub book_makeup : StudioNow → AuthUser → Uuid → Uuid → Db → Result LeaveRequest × Db
book_makeup at auth id session = transaction (makeup_body at auth id session)

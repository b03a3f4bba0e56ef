-- ===== src/Leave/Service.antt =====
-- src/modules/leave/service.rs: asking for leave, and deciding on it.
use dream_fly_backend.Prelude.{String, Option}
use dream_fly_backend.Base.{Uuid}
use dream_fly_backend.AppError.{ok, not_found, validation, conflict_on_unique, plain}
use dream_fly_backend.Coaches.Service.{require_course_coach}
use dream_fly_backend.Db.{Notice, leave_request_decided}
use dream_fly_backend.Db.Pool.{
  Pool, ◌>>=◌, ◌>>◌, pure, lift, some_or, query, query_or, in_transaction,
}
use dream_fly_backend.Extractors.Auth.{AuthUser}
use dream_fly_backend.Leave.Model.{LeaveRequest, is_approved}
use dream_fly_backend.Leave.Requests.{
  find_session_context, find_active_enrolment, insert, find_decision_context,
}
use dream_fly_backend.Leave.Rules.{parse_decision, check_decidable}
use dream_fly_backend.Leave.Transactions.{decide_body}
use dream_fly_backend.Orders.Checkout.{deliver}
use dream_fly_backend.StudioClock.{StudioNow, require_not_started}

-- The answers are the rows, from which the handlers' DTOs are built.
unfoldable pub create_leave_request :
    StudioNow → AuthUser → (session : Uuid) → Option String → Pool LeaveRequest
create_leave_request at auth session reason = do
  found ← query (find_session_context session)
  target ← some_or found (not_found (plain "場次不存在"))
  enrolled ← query (find_active_enrolment auth.user_id target.course_id)
  enrolment ← some_or enrolled (not_found (plain "未報名此課程"))
  lift (
      require_not_started at target.session_date target.start_time "session time"
        (validation (plain "場次已開始，無法請假")))
  query_or (λ e. conflict_on_unique e (plain "此場次已有請假紀錄")) (insert enrolment session reason)

unfoldable pub deliver_to : Notice → Pool (Unit {0})
deliver_to notice db = (ok tt, deliver notice db)

unfoldable pub decide_leave_request : AuthUser → (id : Uuid) → (text : String) → Pool LeaveRequest
decide_leave_request auth id text = do
  status ← lift (parse_decision text)
  found ← query (find_decision_context id)
  ctx ← some_or found (not_found (plain "請假申請不存在"))
  require_course_coach auth ctx.coach_id "非本課教練"
  lift (check_decidable ctx status)
  updated ← in_transaction (decide_body id status auth.user_id)
  deliver_to
      (leave_request_decided ctx.user_id (is_approved status) ctx.course_name ctx.session_date)
  pure updated

-- ===== src/Leave/Requests.antt =====
-- src/modules/leave/repository.rs: the statements of the leave requests' own service.
use dream_fly_backend.Prelude.{
  ◌+◌, String, Bool, ◌&&◌, Option, none, some, List, [], ◌∷◌, ◌++◌, find, any, ◌==◌, if◌then◌else◌,
  and_then, is_some, not,
}
use dream_fly_backend.Base.{Uuid}
use dream_fly_backend.AppError.{database, unique_violation, other}
use dream_fly_backend.Courses.SeatQueries.{is_session, is_enrolled, find_course}
use dream_fly_backend.Db.{Db, Sql, done, failed, select}
use dream_fly_backend.Enrolments.Model.{Enrolment}
use dream_fly_backend.Enrolments.Repository.{holds_seat, is_enrolment}
use dream_fly_backend.Leave.Model.{
  LeaveRequest, LeaveStatus, pending, is_pending, is_approved, is_live, LeaveDecisionContext,
  LeaveRequestForMakeup,
}
use dream_fly_backend.Sessions.Model.{CourseSession}

abbrev pub is_request : Uuid → LeaveRequest → Bool
is_request id lr = lr.id == id

-- The join with `courses` always finds the session's course (a foreign key).
unfoldable pub find_session_context : Uuid → Sql (Option CourseSession)
find_session_context id = select λ db. find (is_session id) db.course_sessions

abbrev pub id_of : Option Enrolment → Option Uuid
id_of none = none
id_of (some e) = some e.id

unfoldable pub find_active_enrolment : Uuid → Uuid → Sql (Option Uuid)
find_active_enrolment user course = select λ db. id_of (find (holds_seat user course) db.enrolments)

-- The key of the partial unique index `uniq_leave_requests_active`.
abbrev pub is_live_for : Uuid → Uuid → LeaveRequest → Bool
is_live_for enrolment session lr =
    is_live lr.status && lr.enrolment_id == enrolment && lr.session_id == session

abbrev pub new_request : Uuid → Uuid → Uuid → Option String → LeaveRequest
new_request id enrolment session reason = record {
  id = id;
  enrolment_id = enrolment;
  session_id = session;
  reason = reason;
  status = pending;
  makeup_session_id = none;
  decided_by = none;
}

-- The statements that answer with a view answer here with the row that it shows.
unfoldable pub insert : Uuid → Uuid → Option String → Sql LeaveRequest
insert enrolment session reason db =
    let row = new_request (db.uuids db.drawn) enrolment session reason in
    if any (is_live_for enrolment session) db.leave_requests
    then failed (database unique_violation (some "uniq_leave_requests_active"))
    else done row
        (record db { leave_requests = db.leave_requests ++ row ∷ []; drawn = db.drawn + 1 })

abbrev pub find_request : Uuid → Db → Option LeaveRequest
find_request id db = find (is_request id) db.leave_requests

abbrev pub enrolment_of : LeaveRequest → Db → Option Enrolment
enrolment_of lr db = find (is_enrolment lr.enrolment_id) db.enrolments

-- The owner's id.
unfoldable pub find_owner_tx : Uuid → Sql (Option Uuid)
find_owner_tx id =
    select
      λ db. and_then (find_request id db) λ lr. and_then (enrolment_of lr db) λ e. some e.user_id

-- `UPDATE … WHERE id = $1 AND ..`, by primary key: the first row of that id, if it passes the test.
module _ (id : Uuid) (test : LeaveRequest → Bool) (change : LeaveRequest → LeaveRequest) where
  unfoldable pub update_by_id : List LeaveRequest → List LeaveRequest
  update_by_id [] = []
  update_by_id (lr ∷ lrs) =
      let rest = update_by_id lrs in
      if is_request id lr then (if test lr then change lr else lr) ∷ lrs else lr ∷ rest

  abbrev pub returned : Option LeaveRequest → Option LeaveRequest
  returned none = none
  returned (some lr) = if test lr then some (change lr) else none

  unfoldable pub update_returning : Sql (Option LeaveRequest)
  update_returning db =
      done (returned (find_request id db))
        (record db { leave_requests = update_by_id db.leave_requests })

abbrev pub is_open_request : LeaveRequest → Bool
is_open_request lr = is_pending lr.status

abbrev pub withdraw : LeaveRequest → LeaveRequest
withdraw lr = record lr { status = LeaveStatus.cancelled }

abbrev pub cancel_if_pending_tx : Uuid → Sql (Option LeaveRequest)
cancel_if_pending_tx id = update_returning id is_open_request withdraw

abbrev pub decide_as : LeaveStatus → Uuid → LeaveRequest → LeaveRequest
decide_as status who lr = record lr { status = status; decided_by = some who }

abbrev pub decide_tx : Uuid → LeaveStatus → Uuid → Sql (Option LeaveRequest)
decide_tx id status who = update_returning id is_open_request (decide_as status who)

abbrev pub awaits_makeup : LeaveRequest → Bool
awaits_makeup lr = is_approved lr.status && not (is_some lr.makeup_session_id)

abbrev pub make_up_at : Uuid → LeaveRequest → LeaveRequest
make_up_at session lr = record lr { makeup_session_id = some session }

abbrev pub set_makeup_session_tx : Uuid → Uuid → Sql (Option LeaveRequest)
set_makeup_session_tx id session = update_returning id awaits_makeup (make_up_at session)

abbrev fetch_enrolment : Option LeaveRequest → Sql Uuid
fetch_enrolment none db = failed other
fetch_enrolment (some lr) db = done lr.enrolment_id db

unfoldable pub find_enrolment_id_tx : Uuid → Sql Uuid
find_enrolment_id_tx id db = fetch_enrolment (find_request id db) db

abbrev decision_context : LeaveRequest → Db → Option LeaveDecisionContext
decision_context lr db = and_then (enrolment_of lr db) λ e.
    and_then (find_course e.course_id db) λ c.
      and_then (find (is_session lr.session_id) db.course_sessions) λ s. some record {
        status = lr.status;
        user_id = e.user_id;
        course_name = c.name;
        coach_id = c.coach_id;
        session_date = s.session_date;
        enrolment_active = is_enrolled lr.enrolment_id db.enrolments;
      }

unfoldable pub find_decision_context : Uuid → Sql (Option LeaveDecisionContext)
find_decision_context id = select λ db. and_then (find_request id db) λ lr. decision_context lr db

abbrev pub makeup_context : LeaveRequest → Db → Option LeaveRequestForMakeup
makeup_context lr db = and_then (enrolment_of lr db) λ e. some record {
  id = lr.id;
  session_id = lr.session_id;
  user_id = e.user_id;
  course_id = e.course_id;
  status = lr.status;
  makeup_session_id = lr.makeup_session_id;
  enrolment_active = is_enrolled lr.enrolment_id db.enrolments;
}

-- The joins with the course and the session find their rows (foreign keys).
unfoldable pub find_for_makeup_tx : Uuid → Sql (Option LeaveRequestForMakeup)
find_for_makeup_tx id = select λ db. and_then (find_request id db) λ lr. makeup_context lr db

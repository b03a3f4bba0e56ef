-- ===== src/Leave/Actions.antt =====
-- Leave requests, attendance marks and enrolments together: an approved leave stands.
use dream_fly_backend.Prelude.{String, Option, List, [], ◌∷◌, Bool-cases, inl, inr}
use dream_fly_backend.Base.{Uuid}
use dream_fly_backend.Attendance.Projected.{IsProjected}
use dream_fly_backend.Attendance.Marking.{AttendanceRecordEntry}
use dream_fly_backend.Attendance.Service.{bulk_upsert_attendance, find_session_course}
use dream_fly_backend.Coaches.Service.{require_course_coach, resolve, find_by_user_id}
use dream_fly_backend.Db.{Db, Notice, select-Respects}
use dream_fly_backend.Db.Pool.Frame.{
  RespectsPool, >>=-RespectsPool, pure-RespectsPool, lift-RespectsPool, some_or-RespectsPool,
  reject_if-RespectsPool, query-RespectsPool, in_transaction-RespectsPool,
}
use dream_fly_backend.Enrolments.Service.{cancel_enrolment}
use dream_fly_backend.Extractors.Auth.{AuthUser, is_admin}
use dream_fly_backend.Leave.Requests.{
  find_session_context, find_active_enrolment, find_decision_context,
}
use dream_fly_backend.Leave.Service.{create_leave_request, decide_leave_request, deliver_to}
use dream_fly_backend.Leave.Transactions.{cancel_leave_request, book_makeup}
use dream_fly_backend.Orders.Checkout.{deliver}
use dream_fly_backend.StudioClock.{StudioNow}
use dream_fly_backend.Leave.Kept.{
  KeepsLeaves, keeping, cancel_body-Respects, makeup_body-Respects, decide_body-Respects,
  mark_tx-Respects, unenrol_body-Respects, insert-Respects,
}

-- The services on the pool.
require_course_coach-Respects :
    (auth : AuthUser) (coach : Option Uuid) (msg : String)
    → RespectsPool KeepsLeaves (require_course_coach auth coach msg)
unfolding require_course_coach resolve find_by_user_id
require_course_coach-Respects auth coach msg db = elim (Bool-cases (is_admin auth)) [
  | inl boss ↦ rw (boss, require_course_coach) (λ p. p)
  | inr other ↦
      rw (other, require_course_coach)
        (>>=-RespectsPool keeping _ _ (query-RespectsPool keeping _ _ (select-Respects keeping _))
          (λ found. reject_if-RespectsPool keeping _ _) db)
]

create_leave_request-Respects :
    (at : StudioNow) (auth : AuthUser) (session : Uuid) (reason : Option String)
    → RespectsPool KeepsLeaves (create_leave_request at auth session reason)
unfolding create_leave_request find_session_context find_active_enrolment
create_leave_request-Respects at auth session reason =
    >>=-RespectsPool keeping _ _ (query-RespectsPool keeping _ _ (select-Respects keeping _))
      λ found. >>=-RespectsPool keeping _ _ (some_or-RespectsPool keeping found _) λ target.
        >>=-RespectsPool keeping _ _ (query-RespectsPool keeping _ _ (select-Respects keeping _))
          λ enrolled.
            >>=-RespectsPool keeping _ _ (some_or-RespectsPool keeping enrolled _) λ enrolment.
              >>=-RespectsPool keeping _ _ (lift-RespectsPool keeping _)
                λ _. query-RespectsPool keeping _ _ (insert-Respects enrolment session reason)

deliver_to-Respects : (notice : Notice) → RespectsPool KeepsLeaves (deliver_to notice)
unfolding deliver_to deliver
deliver_to-Respects notice db p = p

decide_leave_request-Respects :
    (auth : AuthUser) (id : Uuid) (text : String)
    → RespectsPool KeepsLeaves (decide_leave_request auth id text)
unfolding decide_leave_request find_decision_context
decide_leave_request-Respects auth id text =
    >>=-RespectsPool keeping _ _ (lift-RespectsPool keeping _) λ status.
      >>=-RespectsPool keeping _ _ (query-RespectsPool keeping _ _ (select-Respects keeping _))
        λ found. >>=-RespectsPool keeping _ _ (some_or-RespectsPool keeping found _) λ ctx.
          >>=-RespectsPool keeping _ _ (require_course_coach-Respects auth ctx.coach_id _) λ _.
            >>=-RespectsPool keeping _ _ (lift-RespectsPool keeping _) λ _.
              >>=-RespectsPool keeping _ _
                (in_transaction-RespectsPool keeping _
                  (decide_body-Respects id status auth.user_id))
                λ updated.
                  >>=-RespectsPool keeping _ _ (deliver_to-Respects _)
                    λ _. pure-RespectsPool keeping updated

bulk_upsert-Respects :
    (at : StudioNow) (auth : AuthUser) (session : Uuid) (records : List AttendanceRecordEntry)
    → RespectsPool KeepsLeaves (bulk_upsert_attendance at auth session records)
unfolding bulk_upsert_attendance find_session_course
bulk_upsert-Respects at auth session records =
    >>=-RespectsPool keeping _ _ (query-RespectsPool keeping _ _ (select-Respects keeping _))
      λ found. >>=-RespectsPool keeping _ _ (some_or-RespectsPool keeping found _) λ it.
        >>=-RespectsPool keeping _ _ (require_course_coach-Respects auth it.coach_id _) λ _.
          >>=-RespectsPool keeping _ _ (lift-RespectsPool keeping _) λ _.
            >>=-RespectsPool keeping _ _ (lift-RespectsPool keeping _) λ parsed.
              in_transaction-RespectsPool keeping _
                (mark_tx-Respects session it.session.course_id parsed auth.user_id)

pub data Action : Type 0 where
  ask : StudioNow → AuthUser → (session : Uuid) → (reason : Option String) → Action
  retract : AuthUser → (id : Uuid) → Action
  judge : AuthUser → (id : Uuid) → (text : String) → Action
  make_up : StudioNow → AuthUser → (id session : Uuid) → Action
  mark_all : StudioNow → AuthUser → (session : Uuid) → List AttendanceRecordEntry → Action
  unenrol : AuthUser → (id : Uuid) → Action

abbrev pub perform : Action → Db → Db
perform (ask at auth session reason) db = (create_leave_request at auth session reason db).1
perform (retract auth id) db = (cancel_leave_request auth id db).1
perform (judge auth id text) db = (decide_leave_request auth id text db).1
perform (make_up at auth id session) db = (book_makeup at auth id session db).1
perform (mark_all at auth session records) db =
    (bulk_upsert_attendance at auth session records db).1
perform (unenrol auth id) db = (cancel_enrolment auth id db).1

abbrev pub perform_all : List Action → Db → Db
perform_all [] db = db
perform_all (action ∷ actions) db = perform_all actions (perform action db)

perform-IsProjected : (action : Action) (db : Db) → IsProjected db → IsProjected (perform action db)
unfolding cancel_leave_request book_makeup cancel_enrolment
perform-IsProjected (ask at auth session reason) db p =
    create_leave_request-Respects at auth session reason db p
perform-IsProjected (retract auth id) db p =
    in_transaction-RespectsPool keeping _ (cancel_body-Respects auth id) db p
perform-IsProjected (judge auth id text) db p = decide_leave_request-Respects auth id text db p
perform-IsProjected (make_up at auth id session) db p =
    in_transaction-RespectsPool keeping _ (makeup_body-Respects at auth id session) db p
perform-IsProjected (mark_all at auth session records) db p =
    bulk_upsert-Respects at auth session records db p
perform-IsProjected (unenrol auth id) db p =
    in_transaction-RespectsPool keeping _ (unenrol_body-Respects auth id) db p

-- Whatever requests, withdrawals, decisions, makeups, attendance batches and cancelled enrolments are
-- served, in any order: if every approved leave request has an attendance record for its session and
-- that says `leave`, it still has one afterwards, and so has every request approved meanwhile. No
-- attendance mark overwrites an approved leave.
pub perform_all-IsProjected :
    (actions : List Action) (db : Db) → IsProjected db → IsProjected (perform_all actions db)
perform_all-IsProjected [] db p = p
perform_all-IsProjected (action ∷ actions) db p =
    perform_all-IsProjected actions (perform action db) (perform-IsProjected action db p)

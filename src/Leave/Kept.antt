-- ===== src/Leave/Kept.antt =====
-- What every statement and transaction of leave, attendance and enrolments keeps of approved leaves.
use dream_fly_backend.Prelude.{
  ◌≡◌, refl, String, Bool, true, Option, List, [], ◌∷◌, ◌++◌, any, all, ◌+◌, arith, Bool-cases, inl,
  inr, Option-cases, all-append,
}
use dream_fly_backend.Base.{Uuid}
use dream_fly_backend.Attendance.Approved.{upsert_tx-IsProjected}
use dream_fly_backend.Attendance.Projected.{IsProjected, is_projected}
use dream_fly_backend.Attendance.Marking.{Mark}
use dream_fly_backend.Attendance.Model.{AttendanceStatus}
use dream_fly_backend.Attendance.Records.{
  mark_tx, write_marks, upsert_tx, find_active_enrolment_ids_in,
  find_approved_leave_enrolment_ids_tx,
}
use dream_fly_backend.Courses.SeatQueries.{
  lock_session_tx, require_room_tx, session_seats_tx, max_students_of, find_course,
}
use dream_fly_backend.Db.{
  Db, Keeps, Keeps-IsFrame, IsFrame, Respects, RespectsSql, >>=-Respects, pure-Respects,
  lift-Respects, some_or-Respects, reject_if-Respects, query-Respects, select-Respects,
}
use dream_fly_backend.Enrolments.Repository.{
  cancel_if_active_tx, find_by_id_tx, cancel_where, is_open,
}
use dream_fly_backend.Enrolments.Service.{cancel_enrolment_body}
use dream_fly_backend.Extractors.Auth.{AuthUser}
use dream_fly_backend.Leave.Approved.{decide_tx-IsProjected}
use dream_fly_backend.Leave.Updates.{all-update}
use dream_fly_backend.Leave.Model.{LeaveRequest, LeaveStatus}
use dream_fly_backend.Leave.Repository.{
  cancel_leaves, is_pending_of, cancel_pending_for_enrolments_tx,
}
use dream_fly_backend.Leave.Requests.{
  update_returning, update_by_id, insert, find_owner_tx, find_for_makeup_tx, is_open_request,
  withdraw, awaits_makeup, make_up_at, new_request, is_live_for,
}
use dream_fly_backend.Leave.Transactions.{cancel_body, decide_body, makeup_body}
use dream_fly_backend.Sessions.Model.{CourseSession}
use dream_fly_backend.StudioClock.{StudioNow}

abbrev pub KeepsLeaves : Db → Db → Type 0
KeepsLeaves = Keeps IsProjected

pub keeping : IsFrame KeepsLeaves
keeping = Keeps-IsFrame IsProjected

-- The statements.
update_returning-Respects :
    (id : Uuid) (test : LeaveRequest → Bool) (change : LeaveRequest → LeaveRequest)
    → ((db : Db) (lr : LeaveRequest)
        → is_projected db.attendance_records lr ≡ true
        → is_projected db.attendance_records (change lr) ≡ true)
    → RespectsSql KeepsLeaves (update_returning id test change)
unfolding update_returning
update_returning-Respects id test change h db o db' e p =
    let state : db' ≡ record db { leave_requests = update_by_id id test change db.leave_requests } =
      cc e in
    rw state (
      all-update id test change (is_projected db.attendance_records) db.leave_requests
        (λ lr go q. h db lr q) p)

pub insert-Respects :
    (enrolment session : Uuid) (reason : Option String)
    → RespectsSql KeepsLeaves (insert enrolment session reason)
unfolding insert
insert-Respects enrolment session reason db row db' e p =
    elim (Bool-cases (any (is_live_for enrolment session) db.leave_requests)) [
      | inl twice ↦ (let e' = rw (twice, insert) at e in cc e')
      | inr fresh ↦
          let e' = rw (fresh, insert) at e in
          let new = new_request (db.uuids db.drawn) enrolment session reason in
          let state : db'
              ≡ record db { leave_requests = db.leave_requests ++ new ∷ []; drawn = db.drawn + 1 } =
            cc e' in
          rw state (
            ground (
              arith,
              all-append (is_projected db.attendance_records) db.leave_requests (new ∷ []),
              p,
            ))
    ]

all-cancel_leaves :
    (test : LeaveRequest → Bool) (db : Db) (lrs : List LeaveRequest)
    → all (is_projected db.attendance_records) lrs ≡ true
    → all (is_projected db.attendance_records) (cancel_leaves test lrs) ≡ true
unfolding cancel_leaves
all-cancel_leaves test db [] p = refl
all-cancel_leaves test db (lr ∷ lrs) p = elim (Bool-cases (test lr)) [
  | inl hit ↦ rw hit (ground (arith, p, all-cancel_leaves test db lrs))
  | inr miss ↦ rw miss (ground (arith, p, all-cancel_leaves test db lrs))
]

cancel_pending-Respects :
    (ids : List Uuid) → RespectsSql KeepsLeaves (cancel_pending_for_enrolments_tx ids)
unfolding cancel_pending_for_enrolments_tx
cancel_pending-Respects ids db n db' e p =
    let state : db'
        ≡ record db { leave_requests = cancel_leaves (is_pending_of ids) db.leave_requests } =
      cc e in
    rw state (all-cancel_leaves (is_pending_of ids) db db.leave_requests p)

cancel_if_active-Respects : (id : Uuid) → RespectsSql KeepsLeaves (cancel_if_active_tx id)
unfolding cancel_if_active_tx
cancel_if_active-Respects id db o db' e p =
    let state : db' ≡ record db { enrolments = cancel_where (is_open id) db.enrolments } = cc e in
    rw state p

upsert-Respects :
    (s e : Uuid) (status : AttendanceStatus) (who : Uuid)
    → RespectsSql KeepsLeaves (upsert_tx s e status who)
upsert-Respects s e status who db n db' h p = upsert_tx-IsProjected s e status who db n db' h p

-- The transactions.
pub cancel_body-Respects :
    (auth : AuthUser) (id : Uuid) → Respects KeepsLeaves (cancel_body auth id)
unfolding cancel_body find_owner_tx
cancel_body-Respects auth id =
    >>=-Respects keeping (query-Respects keeping _ _ (select-Respects keeping _)) λ found.
      >>=-Respects keeping (some_or-Respects keeping found _) λ owner.
        >>=-Respects keeping (lift-Respects keeping _) λ _.
          >>=-Respects keeping
            (query-Respects keeping _ _
              (update_returning-Respects id is_open_request withdraw (λ db lr q. refl)))
            λ withdrawn.
              >>=-Respects keeping (some_or-Respects keeping withdrawn _)
                λ row. pure-Respects keeping tt

session_seats-Respects : (s : CourseSession) → RespectsSql KeepsLeaves (session_seats_tx s)
unfolding session_seats_tx
session_seats-Respects s db seats db' e p =
    elim (Option-cases (max_students_of (find_course s.course_id db))) [
      | inl gone ↦ (let e' = rw (gone, session_seats_tx) at e in cc e')
      | inr (max, there) ↦
          let e' = rw (there, session_seats_tx) at e in let state : db' ≡ db = cc e' in rw state p
    ]

pub makeup_body-Respects :
    (at : StudioNow) (auth : AuthUser) (id session : Uuid)
    → Respects KeepsLeaves (makeup_body at auth id session)
unfolding makeup_body find_for_makeup_tx lock_session_tx require_room_tx
makeup_body-Respects at auth id session =
    >>=-Respects keeping (query-Respects keeping _ _ (select-Respects keeping _)) λ found.
      >>=-Respects keeping (some_or-Respects keeping found _) λ request.
        >>=-Respects keeping (lift-Respects keeping _) λ _.
          >>=-Respects keeping (lift-Respects keeping _) λ _.
            >>=-Respects keeping (query-Respects keeping _ _ (select-Respects keeping _)) λ target.
              >>=-Respects keeping (some_or-Respects keeping target _) λ lock.
                >>=-Respects keeping (lift-Respects keeping _) λ _.
                  >>=-Respects keeping
                    (>>=-Respects keeping
                      (query-Respects keeping _ _ (session_seats-Respects lock.session))
                      λ seats. reject_if-Respects keeping _ _)
                    λ _.
                      >>=-Respects keeping
                        (query-Respects keeping _ _ (
                          update_returning-Respects id awaits_makeup (make_up_at session)
                            (λ db lr q. q)))
                        λ updated. some_or-Respects keeping updated _

pub decide_body-Respects :
    (id : Uuid) (status : LeaveStatus) (who : Uuid)
    → Respects KeepsLeaves (decide_body id status who)
unfolding decide_body
decide_body-Respects id status who =
    >>=-Respects keeping (λ db o db' e p. decide_tx-IsProjected id who db status e p)
      λ updated. some_or-Respects keeping updated _

write_marks-Respects :
    (session who : Uuid) (marks : List Mark) → Respects KeepsLeaves (write_marks session who marks)
unfolding write_marks
write_marks-Respects session who [] = pure-Respects keeping tt
write_marks-Respects session who (mark ∷ marks) =
    >>=-Respects keeping
      (query-Respects keeping _ _ (upsert-Respects session mark.enrolment_id mark.status who))
      λ affected.
        >>=-Respects keeping (reject_if-Respects keeping _ _)
          λ _. write_marks-Respects session who marks

pub mark_tx-Respects :
    (session course : Uuid) (marks : List Mark) (who : Uuid)
    → Respects KeepsLeaves (mark_tx session course marks who)
unfolding mark_tx find_active_enrolment_ids_in find_approved_leave_enrolment_ids_tx
mark_tx-Respects session course marks who =
    >>=-Respects keeping (query-Respects keeping _ _ (select-Respects keeping _)) λ valid.
      >>=-Respects keeping (query-Respects keeping _ _ (select-Respects keeping _)) λ granted.
        >>=-Respects keeping (lift-Respects keeping _)
          λ entries. write_marks-Respects session who entries

pub unenrol_body-Respects :
    (auth : AuthUser) (id : Uuid) → Respects KeepsLeaves (cancel_enrolment_body auth id)
unfolding cancel_enrolment_body find_by_id_tx
unenrol_body-Respects auth id =
    >>=-Respects keeping (query-Respects keeping _ _ (select-Respects keeping _)) λ found.
      >>=-Respects keeping (some_or-Respects keeping found _) λ enrolment.
        >>=-Respects keeping (lift-Respects keeping _) λ _.
          >>=-Respects keeping (query-Respects keeping _ _ (cancel_if_active-Respects id))
            λ cancelled. >>=-Respects keeping (some_or-Respects keeping cancelled _) λ updated.
              >>=-Respects keeping (query-Respects keeping _ _ (cancel_pending-Respects (id ∷ [])))
                λ flipped. pure-Respects keeping updated

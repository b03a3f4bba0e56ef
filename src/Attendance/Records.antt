-- ===== src/Attendance/Records.antt =====
-- src/modules/attendance/records.rs: the only writer of `attendance_records`.
use dream_fly_backend.Prelude.{
  ℕ, ◌+◌, Bool, ◌&&◌, ◌||◌, not, List, [], ◌∷◌, ◌++◌, map, filter, any, ◌==◌, if◌then◌else◌,
}
use dream_fly_backend.Base.{Uuid}
use dream_fly_backend.Attendance.Marking.{Mark, approved_leave_overwrite, contains, plan}
use dream_fly_backend.Attendance.Model.{AttendanceRecord, AttendanceStatus, leave, is_leave_mark}
use dream_fly_backend.Db.{Sql, done, select, Tx, ◌>>=◌, ◌>>◌, pure, lift, query, reject_if}
use dream_fly_backend.Enrolments.Model.{is_active}
use dream_fly_backend.Leave.Model.{LeaveRequest, is_approved}

-- The key of the unique constraint.
abbrev pub is_record : Uuid → Uuid → AttendanceRecord → Bool
is_record session enrolment r = r.session_id == session && r.enrolment_id == enrolment

abbrev pub is_approved_for : Uuid → Uuid → LeaveRequest → Bool
is_approved_for session enrolment lr =
    is_approved lr.status && lr.session_id == session && lr.enrolment_id == enrolment

-- The `WHERE` of `ON CONFLICT … DO UPDATE`.
abbrev pub is_writable : AttendanceStatus → List LeaveRequest → AttendanceRecord → Bool
is_writable status leave_requests r =
    is_leave_mark status
    || not (is_leave_mark r.status)
    || not (any (is_approved_for r.session_id r.enrolment_id) leave_requests)

abbrev pub remark : AttendanceStatus → Uuid → AttendanceRecord → AttendanceRecord
remark status marked_by r = record r { status = status; marked_by = marked_by }

abbrev pub is_hit : Uuid → Uuid → AttendanceStatus → List LeaveRequest → AttendanceRecord → Bool
is_hit session enrolment status leave_requests r =
    is_record session enrolment r && is_writable status leave_requests r

abbrev pub new_record : Uuid → Uuid → Uuid → AttendanceStatus → Uuid → AttendanceRecord
new_record id session enrolment status marked_by = record {
  id = id;
  session_id = session;
  enrolment_id = enrolment;
  status = status;
  marked_by = marked_by;
}

abbrev pub remark_hits :
    Uuid
    → Uuid
    → AttendanceStatus
    → Uuid
    → List LeaveRequest
    → List AttendanceRecord
    → List AttendanceRecord
remark_hits session enrolment status marked_by leave_requests records =
    map
      (λ r.
        if is_hit session enrolment status leave_requests r then remark status marked_by r else r)
      records

-- How many rows the statement affects; the id is drawn in any case.
unfoldable pub upsert_tx : Uuid → Uuid → AttendanceStatus → Uuid → Sql ℕ
upsert_tx session enrolment status marked_by db =
    if any (is_record session enrolment) db.attendance_records
    then done
        (if any (is_hit session enrolment status db.leave_requests) db.attendance_records
          then 1
          else 0)
        (record db {
          attendance_records =
              remark_hits session enrolment status marked_by db.leave_requests
                db.attendance_records;
          drawn = db.drawn + 1;
        })
    else done 1 (record db {
      attendance_records =
          db.attendance_records
          ++ new_record (db.uuids db.drawn) session enrolment status marked_by ∷ [];
      drawn = db.drawn + 1;
    })

unfoldable pub project_approved_leave_tx : Uuid → Uuid → Uuid → Tx (Unit {0})
project_approved_leave_tx session enrolment decided_by = do
  rows ← query (upsert_tx session enrolment leave decided_by)
  pure tt

unfoldable pub find_active_enrolment_ids_in : Uuid → List Uuid → Sql (List Uuid)
find_active_enrolment_ids_in course ids = select λ db.
    map (λ e. e.id)
      (filter (λ e. is_active e.status && e.course_id == course && contains ids e.id) db.enrolments)

unfoldable pub find_approved_leave_enrolment_ids_tx : Uuid → List Uuid → Sql (List Uuid)
find_approved_leave_enrolment_ids_tx session ids = select λ db.
    map (λ lr. lr.enrolment_id)
      (filter
        (λ lr. lr.session_id == session && contains ids lr.enrolment_id && is_approved lr.status)
        db.leave_requests)

-- The loop over the plan.
unfoldable pub write_marks : Uuid → Uuid → List Mark → Tx (Unit {0})
write_marks session marked_by [] = pure tt
write_marks session marked_by (mark ∷ marks) = do
  affected ← query (upsert_tx session mark.enrolment_id mark.status marked_by)
  reject_if (affected == 0) approved_leave_overwrite
  write_marks session marked_by marks

-- For an empty batch the two reads, which are skipped, have no effect either.
unfoldable pub mark_tx : Uuid → Uuid → List Mark → Uuid → Tx (Unit {0})
mark_tx session course parsed marked_by = do
  valid ← query (find_active_enrolment_ids_in course (map (λ m. m.enrolment_id) parsed))
  approved ← query (find_approved_leave_enrolment_ids_tx session (map (λ m. m.enrolment_id) parsed))
  entries ← lift (plan parsed valid approved)
  write_marks session marked_by entries

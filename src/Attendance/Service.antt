-- ===== src/Attendance/Service.antt =====
-- src/modules/attendance/service.rs: `bulk_upsert_attendance`.
use dream_fly_backend.Prelude.{Option, some, List, find, and_then}
use dream_fly_backend.Base.{Uuid}
use dream_fly_backend.AppError.{not_found, validation, plain}
use dream_fly_backend.Attendance.Marking.{AttendanceRecordEntry, parse}
use dream_fly_backend.Attendance.Records.{mark_tx}
use dream_fly_backend.Coaches.Service.{require_course_coach}
use dream_fly_backend.Courses.SeatQueries.{is_session, find_course}
use dream_fly_backend.Db.{Sql, select}
use dream_fly_backend.Db.Pool.{Pool, ◌>>=◌, ◌>>◌, lift, some_or, query, in_transaction}
use dream_fly_backend.Extractors.Auth.{AuthUser}
use dream_fly_backend.Sessions.Model.{CourseSession}
use dream_fly_backend.StudioClock.{StudioNow, require_started}

pub record SessionCourse : Type 0 where
  pub session : CourseSession
  pub coach_id : Option Uuid

-- src/modules/attendance/repository.rs
unfoldable pub find_session_course : Uuid → Sql (Option SessionCourse)
find_session_course id = select λ db. and_then (find (is_session id) db.course_sessions) λ s.
    and_then (find_course s.course_id db) λ c. some record { session = s; coach_id = c.coach_id }

-- The roster that the handler answers with is read from the tables after this.
unfoldable pub bulk_upsert_attendance :
    StudioNow → AuthUser → (session : Uuid) → List AttendanceRecordEntry → Pool (Unit {0})
bulk_upsert_attendance at auth session records = do
  found ← query (find_session_course session)
  it ← some_or found (not_found (plain "session not found"))
  require_course_coach auth it.coach_id "not the coach for this course"
  lift (
      require_started at it.session.session_date it.session.start_time "session time"
        (validation (plain "場次尚未開始，無法點名")))
  parsed ← lift (parse records)
  in_transaction (mark_tx session it.session.course_id parsed auth.user_id)

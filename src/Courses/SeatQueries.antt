-- ===== src/Courses/SeatQueries.antt =====
-- src/modules/courses/seats.rs: locking courses and sessions, and counting their seats.
use dream_fly_backend.Prelude.{
  ℕ, ℤ, pos, Bool, not, ◌&&◌, Option, none, some, List, map, filter, find, any, count, ◌==◌,
  sort_by_key, false,
}
use dream_fly_backend.Base.{Uuid}
use dream_fly_backend.AppError.{conflict, plain, other}
use dream_fly_backend.Courses.Model.{Course}
use dream_fly_backend.Courses.Seats.{
  CourseSeats, CourseLocks, covers, not_covered, SessionSeats, has_room, SessionLock,
}
use dream_fly_backend.Db.{Db, Sql, done, failed, Tx, ◌>>=◌, ◌>>◌, pure, query, reject_if, select}
use dream_fly_backend.Enrolments.Model.{Enrolment, is_active}
use dream_fly_backend.Leave.Model.{LeaveRequest, is_approved}
use dream_fly_backend.Sessions.Model.{CourseSession}

abbrev pub is_course : Uuid → Course → Bool
is_course id c = c.id == id

unfoldable pub find_course : Uuid → Db → Option Course
find_course id db = find (is_course id) db.courses

abbrev pub course_key : Uuid → ℕ
course_key id = id

-- `SELECT id FROM courses WHERE id = ANY(..) ORDER BY id FOR UPDATE`
unfoldable pub lock_courses_tx : List Uuid → Sql CourseLocks
lock_courses_tx ids = select λ db. record {
  ids =
      sort_by_key course_key (map (λ c. c.id) (filter (λ c. any (λ i. i == c.id) ids) db.courses));
}

abbrev pub max_students_of : Option Course → Option ℤ
max_students_of none = none
max_students_of (some c) = some c.max_students

-- `SELECT COUNT(*) FROM active_enrolments WHERE course_id = ..`
unfoldable pub count_active : Uuid → Db → ℕ
count_active course db = count (λ e. is_active e.status && e.course_id == course) db.enrolments

abbrev pub seats_with : Option ℤ → ℕ → Option CourseSeats
seats_with none active = none
seats_with (some max) active = some (record { max_students = max; active_count = pos active })

-- The count is a later statement; reading it for a missing course as well has no effect.
unfoldable pub course_seats_tx : CourseLocks → Uuid → Tx (Option CourseSeats)
course_seats_tx locks course = do
  reject_if (not (covers locks course)) (not_covered course)
  max ← query (select λ db. max_students_of (find_course course db))
  active ← query (select (count_active course))
  pure (seats_with max active)

-- The read without a lock.
unfoldable pub course_seats : Uuid → Db → Option CourseSeats
course_seats course db =
    seats_with (max_students_of (find_course course db)) (count_active course db)

abbrev pub is_session : Uuid → CourseSession → Bool
is_session id s = s.id == id

abbrev pub session_lock : Option CourseSession → Option SessionLock
session_lock none = none
session_lock (some s) = some (record { session = s })

unfoldable pub lock_session_tx : Uuid → Sql (Option SessionLock)
lock_session_tx id = select λ db. session_lock (find (is_session id) db.course_sessions)

-- `JOIN active_enrolments e ON e.id = lr.enrolment_id`
abbrev pub is_enrolled : Uuid → List Enrolment → Bool
is_enrolled id enrolments = any (λ e. e.id == id && is_active e.status) enrolments

abbrev pub is_some_id : Option Uuid → Uuid → Bool
is_some_id none id = false
is_some_id (some i) id = i == id

abbrev pub is_leave : Uuid → List Enrolment → LeaveRequest → Bool
is_leave session enrolments lr =
    lr.session_id == session && is_approved lr.status && is_enrolled lr.enrolment_id enrolments

abbrev pub is_makeup : Uuid → List Enrolment → LeaveRequest → Bool
is_makeup session enrolments lr =
    is_some_id lr.makeup_session_id session && is_enrolled lr.enrolment_id enrolments

abbrev pub session_seats : ℤ → CourseSession → Db → SessionSeats
session_seats max session db = record {
  max_students = max;
  active_count = pos (count_active session.course_id db);
  approved_leave_count = pos (count (is_leave session.id db.enrolments) db.leave_requests);
  makeup_count = pos (count (is_makeup session.id db.enrolments) db.leave_requests);
}

-- `fetch_one`: a missing course is an error.
abbrev pub select_seats : CourseSession → Option ℤ → Sql SessionSeats
select_seats session none db = failed other
select_seats session (some max) db = done (session_seats max session db) db

unfoldable pub session_seats_tx : CourseSession → Sql SessionSeats
session_seats_tx session db =
    select_seats session (max_students_of (find_course session.course_id db)) db

unfoldable pub require_room_tx : SessionLock → Tx (Unit {0})
require_room_tx lock = do
  seats ← query (session_seats_tx lock.session)
  reject_if (not (has_room seats)) (conflict (plain "該場次名額已滿"))

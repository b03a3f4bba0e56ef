-- ===== src/Enrolments/Repository.antt =====
-- src/modules/enrolments/repository.rs: the statements on `enrolments`.
use dream_fly_backend.Prelude.{
  ◌+◌, Bool, ◌&&◌, Option, none, some, List, [], ◌∷◌, ◌++◌, map, filter, find, any, ◌==◌,
  if◌then◌else◌, false,
}
use dream_fly_backend.Base.{Uuid, Instant}
use dream_fly_backend.AppError.{database, unique_violation}
use dream_fly_backend.Db.{Db, Sql, done, failed, select}
use dream_fly_backend.Enrolments.Model.{Enrolment, active, cancelled, is_active}

-- A row of `active_enrolments` for this user and course.
abbrev pub holds_seat : Uuid → Uuid → Enrolment → Bool
holds_seat user course e = is_active e.status && e.user_id == user && e.course_id == course

unfoldable pub exists_active_tx : Uuid → Uuid → Sql Bool
exists_active_tx user course = select λ db. any (holds_seat user course) db.enrolments

abbrev pub new_enrolment : Uuid → Uuid → Uuid → Uuid → Instant → Enrolment
new_enrolment id user course order now = record {
  id = id;
  user_id = user;
  course_id = course;
  order_id = some order;
  status = active;
  enrolled_at = now;
}

-- With the partial unique index `uniq_enrolments_active`.
unfoldable pub insert_tx : Uuid → Uuid → Uuid → Instant → Sql Enrolment
insert_tx user course order now db =
    let row = new_enrolment (db.uuids db.drawn) user course order now in
    if any (holds_seat user course) db.enrolments
    then failed (database unique_violation (some "uniq_enrolments_active"))
    else done row (record db { enrolments = db.enrolments ++ row ∷ []; drawn = db.drawn + 1 })

abbrev pub is_enrolment : Uuid → Enrolment → Bool
is_enrolment id e = e.id == id

unfoldable pub find_by_id_tx : Uuid → Sql (Option Enrolment)
find_by_id_tx id = select λ db. find (is_enrolment id) db.enrolments

abbrev pub cancel_row : Enrolment → Enrolment
cancel_row e = record e { status = cancelled }

-- `UPDATE .. SET status = 'cancelled' WHERE .. RETURNING ..`, on the rows of a test.
unfoldable pub cancel_where : (Enrolment → Bool) → List Enrolment → List Enrolment
cancel_where p es = map (λ e. if p e then cancel_row e else e) es

abbrev pub is_open : Uuid → Enrolment → Bool
is_open id e = is_enrolment id e && is_active e.status

-- The join with `courses` always finds the row's course (a foreign key).
unfoldable pub cancel_if_active_tx : Uuid → Sql (Option Enrolment)
cancel_if_active_tx id db =
    done (find (is_enrolment id) (map cancel_row (filter (is_open id) db.enrolments)))
      (record db { enrolments = cancel_where (is_open id) db.enrolments })

abbrev pub is_of : Option Uuid → Uuid → Bool
is_of none order = false
is_of (some o) order = o == order

abbrev pub is_open_of : Uuid → Enrolment → Bool
is_open_of order e = is_of e.order_id order && is_active e.status

unfoldable pub cancel_by_order_tx : Uuid → Sql (List Uuid)
cancel_by_order_tx order db =
    done (map (λ e. e.id) (filter (is_open_of order) db.enrolments))
      (record db { enrolments = cancel_where (is_open_of order) db.enrolments })

unfoldable pub find_by_order : Uuid → Db → List Enrolment
find_by_order order db = filter (λ e. is_of e.order_id order) db.enrolments

-- ===== src/Courses/Seats.antt =====
-- src/modules/courses/seats.rs, the part without a database: full courses, lock order, room.
use dream_fly_backend.Prelude.{
  ℤ, pos, ltb_ℤ, leb_ℤ, ◌+i64◌, ◌-i64◌, Bool, not, Option, none, some, List, find, any, ◌==◌, [],
  ◌∷◌, sort_by_key,
}
use dream_fly_backend.Base.{Uuid}
use dream_fly_backend.AppError.{AppError, Result, ok, err, internal, format, uuid}
use dream_fly_backend.Sessions.Model.{CourseSession}

pub record CourseSeats : Type 0 where
  pub max_students : ℤ
  pub active_count : ℤ

unfoldable pub is_full : CourseSeats → Bool
is_full s = leb_ℤ s.max_students s.active_count

-- The ids of the locked rows, ascending; only `lock_courses_tx` makes one.
pub record CourseLocks : Type 0 where
  pub ids : List Uuid

-- A binary search of ids that ascend.
unfoldable pub covers : CourseLocks → Uuid → Bool
covers locks id = any (λ i. i == id) locks.ids

abbrev pub not_covered : Uuid → AppError
not_covered id = internal (format "course {} is not covered by CourseLocks" (uuid id ∷ []))

module _ {A : Type 0} where
  -- What `in_lock_order` does once it has looked for an item that is not covered.
  abbrev pub sort_covered : Option A → List A → (A → Uuid) → Result (List A)
  sort_covered none items id = ok (sort_by_key id items)
  sort_covered (some item) items id = err (not_covered (id item))

  unfoldable pub in_lock_order : CourseLocks → List A → (A → Uuid) → Result (List A)
  in_lock_order locks items id =
      sort_covered (find (λ item. not (covers locks (id item))) items) items id

pub record SessionSeats : Type 0 where
  pub max_students : ℤ
  pub active_count : ℤ
  pub approved_leave_count : ℤ
  pub makeup_count : ℤ

unfoldable pub remaining : SessionSeats → ℤ
remaining s = s.max_students -i64 s.active_count +i64 s.approved_leave_count -i64 s.makeup_count

unfoldable pub has_room : SessionSeats → Bool
unfolding remaining
has_room s = ltb_ℤ (pos 0) (remaining s)

-- Witness of the `FOR UPDATE` lock on the session's row; only `lock_session_tx` makes one.
pub record SessionLock : Type 0 where
  pub session : CourseSession

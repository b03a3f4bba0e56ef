-- ===== src/Attendance/Marking.antt =====
-- src/modules/attendance/marking.rs: parsing a batch of marks, and its checks.
use dream_fly_backend.Prelude.{
  String, Bool, ◌&&◌, not, Option, none, some, List, [], ◌∷◌, map, any, all, ◌==◌, if◌then◌else◌,
}
use dream_fly_backend.Base.{Uuid}
use dream_fly_backend.AppError.{AppError, Result, ok, err, ◌>>=◌, validation, plain, format, str}
use dream_fly_backend.Attendance.Model.{AttendanceStatus, attendance_from_str, is_leave_mark}

pub record AttendanceRecordEntry : Type 0 where
  pub enrolment_id : Uuid
  pub status : String

pub record Mark : Type 0 where
  pub enrolment_id : Uuid
  pub status : AttendanceStatus

abbrev pub approved_leave_overwrite : AppError
approved_leave_overwrite =
    validation (plain "cannot overwrite an approved leave with present/absent")

abbrev parsed_as : AttendanceRecordEntry → Option AttendanceStatus → Result Mark
parsed_as entry (some status) = ok (record { enrolment_id = entry.enrolment_id; status = status })
parsed_as entry none =
    err (validation (format "invalid attendance status: {}" (str entry.status ∷ [])))

unfoldable pub parse : List AttendanceRecordEntry → Result (List Mark)
parse [] = ok []
parse (entry ∷ entries) = do
  mark ← parsed_as entry (attendance_from_str entry.status)
  rest ← parse entries
  ok (mark ∷ rest)

abbrev pub contains : List Uuid → Uuid → Bool
contains ids id = any (λ i. i == id) ids

-- The equality of two sets of ids.
abbrev pub same_ids : List Uuid → List Uuid → Bool
same_ids xs ys = all (contains ys) xs && all (contains xs) ys

abbrev pub overwrites : List Uuid → Mark → Bool
overwrites approved mark = not (is_leave_mark mark.status) && contains approved mark.enrolment_id

-- The plan is the batch itself.
unfoldable pub plan : List Mark → (valid approved : List Uuid) → Result (List Mark)
plan parsed valid approved =
    if not (same_ids (map (λ m. m.enrolment_id) parsed) valid)
    then err
        (validation (plain "all enrolments must belong to this session's course and be active"))
    else if any (overwrites approved) parsed
    then err approved_leave_overwrite
    else ok parsed

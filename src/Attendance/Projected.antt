-- ===== src/Attendance/Projected.antt =====
-- src/modules/attendance/records.rs: what an approved leave request wants of the records.
use dream_fly_backend.Prelude.{
  any-append, all-append, ◌≡◌, refl, ap, Bool, true, false, ◌&&◌, ◌||◌, not, List, [], ◌∷◌, ◌++◌,
  any, all, ==_iff, arith, Bool-cases, inl, inr,
}
use dream_fly_backend.Base.{Uuid}
use dream_fly_backend.Attendance.Model.{AttendanceRecord, AttendanceStatus, is_leave_mark}
use dream_fly_backend.Attendance.Records.{is_record, is_approved_for, is_hit, remark, remark_hits}
use dream_fly_backend.Db.{Db}
use dream_fly_backend.Leave.Model.{LeaveRequest, is_approved}

-- The record of this session and enrolment, if it is theirs, says `leave`.
abbrev pub says_leave : Uuid → Uuid → AttendanceRecord → Bool
says_leave session enrolment r = not (is_record session enrolment r) || is_leave_mark r.status

abbrev pub is_marked_leave : Uuid → Uuid → List AttendanceRecord → Bool
is_marked_leave session enrolment records =
    any (is_record session enrolment) records && all (says_leave session enrolment) records

-- An approved request has its record, and that says `leave`.
abbrev pub is_projected : List AttendanceRecord → LeaveRequest → Bool
is_projected records lr =
    not (is_approved lr.status) || is_marked_leave lr.session_id lr.enrolment_id records

abbrev pub IsProjected : Db → Type 0
IsProjected db = all (is_projected db.attendance_records) db.leave_requests ≡ true

-- The requests that the guard of the statement protects.
abbrev pub is_guarded : AttendanceStatus → List LeaveRequest → LeaveRequest → Bool
is_guarded status lrs lr =
    is_leave_mark status
    || not (is_approved lr.status)
    || any (is_approved_for lr.session_id lr.enrolment_id) lrs

module _ (s e who : Uuid) (status : AttendanceStatus) (lrs : List LeaveRequest) where
  pub any-remark :
      (s' e' : Uuid) (rs : List AttendanceRecord)
      → any (is_record s' e') (remark_hits s e status who lrs rs) ≡ any (is_record s' e') rs
  any-remark s' e' [] = refl
  any-remark s' e' (r ∷ rs) = elim (Bool-cases (is_hit s e status lrs r)) [
    | inl hit ↦ rw hit (ap (is_record s' e' r ||◌) (any-remark s' e' rs))
    | inr miss ↦ rw miss (ap (is_record s' e' r ||◌) (any-remark s' e' rs))
  ]

  says-remark :
      (s' e' : Uuid) (r : AttendanceRecord)
      → is_hit s e status lrs r ≡ true
      → is_leave_mark status || any (is_approved_for s' e') lrs ≡ true
      → says_leave s' e' r ≡ true
      → says_leave s' e' (remark status who r) ≡ true
  says-remark s' e' r hit g h = elim (Bool-cases (is_record s' e' r)) [
    | inr other ↦ ground (arith, other)
    | inl mine ↦
        let es : r.session_id ≡ s' = (==_iff r.session_id s').0 (ground (arith, mine)) in
        let ee : r.enrolment_id ≡ e' = (==_iff r.enrolment_id e').0 (ground (arith, mine)) in
        let g' : is_leave_mark status || any (is_approved_for r.session_id r.enrolment_id) lrs
            ≡ true =
          rw (es, ee) g in
        ground (arith, mine, hit, g', h)
  ]

  all-remark :
      (s' e' : Uuid) (rs : List AttendanceRecord)
      → is_leave_mark status || any (is_approved_for s' e') lrs ≡ true
      → all (says_leave s' e') rs ≡ true
      → all (says_leave s' e') (remark_hits s e status who lrs rs) ≡ true
  all-remark s' e' [] g h = refl
  all-remark s' e' (r ∷ rs) g h = elim (Bool-cases (is_hit s e status lrs r)) [
    | inr miss ↦ rw miss (ground (arith, h, all-remark s' e' rs g))
    | inl hit ↦ rw hit (ground (arith, h, says-remark s' e' r hit g, all-remark s' e' rs g))
  ]

  pub is_projected-remark :
      (rs : List AttendanceRecord) (lr : LeaveRequest)
      → is_guarded status lrs lr ≡ true
      → is_projected rs lr ≡ true
      → is_projected (remark_hits s e status who lrs rs) lr ≡ true
  is_projected-remark rs lr g h = elim (Bool-cases (is_approved lr.status)) [
    | inr other ↦ rw other refl
    | inl granted ↦
        let guard : is_leave_mark status || any (is_approved_for lr.session_id lr.enrolment_id) lrs
            ≡ true =
          ground (arith, g, granted) in
        ground (
          arith,
          h,
          granted,
          any-remark lr.session_id lr.enrolment_id rs,
          all-remark lr.session_id lr.enrolment_id rs guard,
        )
  ]

pub is_projected-insert :
    (rs : List AttendanceRecord) (r : AttendanceRecord) (lr : LeaveRequest)
    → any (is_record r.session_id r.enrolment_id) rs ≡ false
    → is_projected rs lr ≡ true
    → is_projected (rs ++ r ∷ []) lr ≡ true
is_projected-insert rs r lr absent h = elim (Bool-cases (is_approved lr.status)) [
  | inr other ↦ rw other refl
  | inl granted ↦
      let more = any-append (is_record lr.session_id lr.enrolment_id) rs (r ∷ []) in
      let most = all-append (says_leave lr.session_id lr.enrolment_id) rs (r ∷ []) in
      elim (Bool-cases (is_record lr.session_id lr.enrolment_id r)) [
        | inr other ↦ ground (arith, h, granted, more, most, other)
        | inl mine ↦
            let es : r.session_id ≡ lr.session_id =
              (==_iff r.session_id lr.session_id).0 (ground (arith, mine)) in
            let ee : r.enrolment_id ≡ lr.enrolment_id =
              (==_iff r.enrolment_id lr.enrolment_id).0 (ground (arith, mine)) in
            let none_yet : any (is_record lr.session_id lr.enrolment_id) rs ≡ false =
              rw (← es, ← ee) absent in
            absurd (ground (arith, h, granted, none_yet))
      ]
]

-- ===== src/Attendance/Approved.antt =====
-- src/modules/attendance/records.rs: no mark overwrites the record of an approved leave.
use dream_fly_backend.Prelude.{
  ℕ, ◌+◌, ◌≡◌, refl, true, false, List, [], ◌∷◌, ◌++◌, any, all, ==_iff, arith, Bool-cases, inl,
  inr, if◌then◌else◌, any-append, all-append,
}
use dream_fly_backend.Base.{Uuid}
use dream_fly_backend.Attendance.Model.{AttendanceRecord, AttendanceStatus, leave}
use dream_fly_backend.Attendance.Records.{
  is_record, is_approved_for, is_hit, remark_hits, new_record, upsert_tx,
}
use dream_fly_backend.Db.{Db, done}
use dream_fly_backend.Leave.Model.{LeaveRequest, is_approved}
use dream_fly_backend.Attendance.Projected.{
  says_leave, is_marked_leave, is_projected, IsProjected, is_guarded, any-remark,
  is_projected-remark, is_projected-insert,
}

-- What the statement leaves of the table.
unfoldable pub upserted :
    (s e : Uuid) (status : AttendanceStatus) (who : Uuid) → Db → List AttendanceRecord
upserted s e status who db =
    if any (is_record s e) db.attendance_records
    then remark_hits s e status who db.leave_requests db.attendance_records
    else db.attendance_records ++ new_record (db.uuids db.drawn) s e status who ∷ []

module _ (s e : Uuid) (status : AttendanceStatus) (who : Uuid) (db : Db) where
  pub upsert_tx-state :
      {n : ℕ} {db' : Db}
      → upsert_tx s e status who db ≡ done n db'
      → db' ≡ record db { attendance_records = upserted s e status who db; drawn = db.drawn + 1 }
  unfolding upsert_tx upserted
  upsert_tx-state h = elim (Bool-cases (any (is_record s e) db.attendance_records)) [
    | inl old ↦ let h' = rw (old, upsert_tx) at h in rw (old, upserted) (cc h')
    | inr fresh ↦ let h' = rw (fresh, upsert_tx) at h in rw (fresh, upserted) (cc h')
  ]

  pub is_projected-upserted :
      (lr : LeaveRequest)
      → is_guarded status db.leave_requests lr ≡ true
      → is_projected db.attendance_records lr ≡ true
      → is_projected (upserted s e status who db) lr ≡ true
  unfolding upserted
  is_projected-upserted lr g h = elim (Bool-cases (any (is_record s e) db.attendance_records)) [
    | inl old ↦
        rw (old, upserted)
          (is_projected-remark s e who status db.leave_requests db.attendance_records lr g h)
    | inr fresh ↦
        rw (fresh, upserted)
          (is_projected-insert db.attendance_records (new_record (db.uuids db.drawn) s e status who)
            lr fresh h)
  ]

module _ (s e who : Uuid) (lrs : List LeaveRequest) where
  all-remark_leave :
      (rs : List AttendanceRecord) → all (says_leave s e) (remark_hits s e leave who lrs rs) ≡ true
  all-remark_leave [] = refl
  all-remark_leave (r ∷ rs) = elim (Bool-cases (is_hit s e leave lrs r)) [
    | inl hit ↦ rw hit (ground (arith, all-remark_leave rs))
    | inr miss ↦ rw miss (ground (arith, miss, all-remark_leave rs))
  ]

all-absent :
    (s e : Uuid) (rs : List AttendanceRecord)
    → any (is_record s e) rs ≡ false
    → all (says_leave s e) rs ≡ true
all-absent s e [] h = refl
all-absent s e (r ∷ rs) h = ground (arith, h, all-absent s e rs)

-- A leave that is written stands.
pub is_marked_leave-upserted :
    (s e who : Uuid) (db : Db) → is_marked_leave s e (upserted s e leave who db) ≡ true
unfolding upserted
is_marked_leave-upserted s e who db =
    elim (Bool-cases (any (is_record s e) db.attendance_records)) [
      | inl old ↦
          rw (old, upserted)
            (ground (
              arith,
              any-remark s e who leave db.leave_requests s e db.attendance_records,
              old,
              all-remark_leave s e who db.leave_requests db.attendance_records,
            ))
      | inr fresh ↦
          let row = new_record (db.uuids db.drawn) s e leave who in
          rw (fresh, upserted)
            (ground (
              arith,
              any-append (is_record s e) db.attendance_records (row ∷ []),
              all-append (says_leave s e) db.attendance_records (row ∷ []),
              all-absent s e db.attendance_records fresh,
              ==_iff s s,
              ==_iff e e,
            ))
    ]

-- Every request of a table is guarded by the table.
all-guarded :
    (status : AttendanceStatus) (lrs rest : List LeaveRequest)
    → ((lr : LeaveRequest)
        → any (is_approved_for lr.session_id lr.enrolment_id) rest ≡ true
        → any (is_approved_for lr.session_id lr.enrolment_id) lrs ≡ true)
    → all (is_guarded status lrs) rest ≡ true
all-guarded status lrs [] h = refl
all-guarded status lrs (lr ∷ rest) h = elim (Bool-cases (is_approved lr.status)) [
  | inr other ↦ ground (arith, other, all-guarded status lrs rest (λ x e. h x (ground (arith, e))))
  | inl granted ↦
      let here = h lr (
        ground (
          arith,
          granted,
          ==_iff lr.session_id lr.session_id,
          ==_iff lr.enrolment_id lr.enrolment_id,
        )) in
      ground (arith, here, all-guarded status lrs rest (λ x e. h x (ground (arith, e))))
]

all-projected :
    (s e : Uuid) (status : AttendanceStatus) (who : Uuid) (db : Db) (lrs : List LeaveRequest)
    → all (is_guarded status db.leave_requests) lrs ≡ true
    → all (is_projected db.attendance_records) lrs ≡ true
    → all (is_projected (upserted s e status who db)) lrs ≡ true
all-projected s e status who db [] g h = refl
all-projected s e status who db (lr ∷ lrs) g h =
    ground
      (arith, g, h, is_projected-upserted s e status who db lr, all-projected s e status who db lrs)

pub upsert_tx-IsProjected :
    (s e : Uuid) (status : AttendanceStatus) (who : Uuid) (db : Db) (n : ℕ) (db' : Db)
    → upsert_tx s e status who db ≡ done n db'
    → IsProjected db
    → IsProjected db'
upsert_tx-IsProjected s e status who db n db' h p = rw (upsert_tx-state s e status who db h) (
    all-projected s e status who db db.leave_requests
      (all-guarded status db.leave_requests db.leave_requests (λ lr e. e)) p)

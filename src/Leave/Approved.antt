-- ===== src/Leave/Approved.antt =====
-- src/modules/leave/service.rs: an approval is written into the attendance, in its transaction.
use dream_fly_backend.Prelude.{
  ◌+◌, ◌≡◌, refl, ap, sym, ◌∙◌, Bool, true, false, ◌&&◌, ◌||◌, Option, none, some, List, [], ◌∷◌,
  find, all, ◌==◌, ==_iff, arith, Bool-cases, inl, inr, all-or,
}
use dream_fly_backend.Base.{Uuid}
use dream_fly_backend.Attendance.Projected.{IsProjected, is_projected, is_marked_leave}
use dream_fly_backend.Attendance.Approved.{
  upserted, upsert_tx-state, is_projected-upserted, is_marked_leave-upserted,
}
use dream_fly_backend.Attendance.Model.{AttendanceRecord, leave}
use dream_fly_backend.Attendance.Records.{project_approved_leave_tx}
use dream_fly_backend.Db.{Db, committed, done, query-then, >>=-committed, pure-state}
use dream_fly_backend.Leave.Model.{
  LeaveRequest, LeaveStatus, pending, approved, rejected, is_approved,
}
use dream_fly_backend.Leave.Requests.{
  is_request, find_request, update_by_id, update_returning, returned, is_open_request, decide_as,
  find_enrolment_id_tx,
}
use dream_fly_backend.Leave.Transactions.{decide_tx, project_decided, project}
use dream_fly_backend.Leave.Updates.{all-update, update-none, returned-found}

-- What holds before the approved row's own record is written.
abbrev is_due_or_projected : List AttendanceRecord → LeaveRequest → LeaveRequest → Bool
is_due_or_projected records row lr =
    is_projected records lr
    || ((row.session_id == lr.session_id) && (row.enrolment_id == lr.enrolment_id))

all-decided :
    (id who : Uuid) (status : LeaveStatus) (records : List AttendanceRecord)
    (lrs : List LeaveRequest) {row : LeaveRequest}
    → returned id is_open_request (decide_as status who) (find (is_request id) lrs) ≡ some row
    → all (is_projected records) lrs ≡ true
    → all
        (is_due_or_projected records row)
        (update_by_id id is_open_request (decide_as status who) lrs)
      ≡ true
unfolding update_by_id
all-decided id who status records [] h p = refl
all-decided id who status records (lr ∷ lrs) {row} h p = elim (Bool-cases (is_request id lr)) [
  | inr other ↦ rw other (ground (arith, p, all-decided id who status records lrs (rw other at h)))
  | inl mine ↦ elim (Bool-cases (is_open_request lr)) [
    | inr stop ↦ (let h' = rw mine at h in let h'' = rw stop at h' in cc h'')
    | inl go ↦
        let h' = rw mine at h in
        let h'' = rw go at h' in
        let same : decide_as status who lr ≡ row = cc h'' in
        let es : lr.session_id ≡ row.session_id = ap (λ (x : LeaveRequest). x.session_id) same in
        let ee : lr.enrolment_id ≡ row.enrolment_id =
          ap (λ (x : LeaveRequest). x.enrolment_id) same in
        let rest : all (is_due_or_projected records row) lrs ≡ true =
          all-or (is_projected records)
            (λ x. (row.session_id == x.session_id) && (row.enrolment_id == x.enrolment_id)) lrs
            (ground (arith, p)) in
        rw (mine, go)
          (ground (
            arith,
            rest,
            (==_iff row.session_id lr.session_id).1 (sym es),
            (==_iff row.enrolment_id lr.enrolment_id).1 (sym ee),
          ))
  ]
]

-- Writing the approved row's record settles it and keeps the others.
all-settled :
    (row : LeaveRequest) (who : Uuid) (db : Db) (lrs : List LeaveRequest)
    → all (is_due_or_projected db.attendance_records row) lrs ≡ true
    → all (is_projected (upserted row.session_id row.enrolment_id leave who db)) lrs ≡ true
all-settled row who db [] h = refl
all-settled row who db (lr ∷ lrs) h = elim (Bool-cases (is_projected db.attendance_records lr)) [
  | inl held ↦ ground (
    arith,
    is_projected-upserted row.session_id row.enrolment_id leave who db lr,
    held,
    all-settled row who db lrs,
    h,
  )
  | inr due ↦
      let es : row.session_id ≡ lr.session_id =
        (==_iff row.session_id lr.session_id).0 (ground (arith, h, due)) in
      let ee : row.enrolment_id ≡ lr.enrolment_id =
        (==_iff row.enrolment_id lr.enrolment_id).0 (ground (arith, h, due)) in
      let written : is_marked_leave lr.session_id lr.enrolment_id
            (upserted row.session_id row.enrolment_id leave who db)
          ≡ true =
        rw (← es, ← ee) (is_marked_leave-upserted row.session_id row.enrolment_id who db) in
      ground (arith, written, all-settled row who db lrs, h)
]

find_enrolment_id_tx-state :
    (id : Uuid) (db : Db) {row : LeaveRequest} {e : Uuid} {db' : Db}
    → find_request id db ≡ some row
    → find_enrolment_id_tx id db ≡ done e db'
    → (e ≡ row.enrolment_id) × (db' ≡ db)
unfolding find_enrolment_id_tx
find_enrolment_id_tx-state id db there h =
    let h' = rw (there, find_enrolment_id_tx) at h in (cc h', cc h')

project-state :
    (s e who : Uuid) (db : Db) {u : Unit {0}} {db' : Db}
    → project_approved_leave_tx s e who db ≡ committed u db'
    → db' ≡ record db { attendance_records = upserted s e leave who db; drawn = db.drawn + 1 }
unfolding project_approved_leave_tx
project-state s e who db h =
    let (n, db₁, written, h₁) = query-then _ _ _ db h in
    (pure-state db₁ h₁).1 ∙ upsert_tx-state s e leave who db written

-- A decision that commits, with the row that it answers with.
module _ (id who : Uuid) (db : Db) where
  decided : LeaveStatus → Db
  decided status = record db {
    leave_requests = update_by_id id is_open_request (decide_as status who) db.leave_requests;
  }

  abbrev answered : LeaveStatus → Option LeaveRequest
  answered status = returned id is_open_request (decide_as status who) (find_request id db)

  update_returning-state :
      (status : LeaveStatus) {o : Option LeaveRequest} {db' : Db}
      → update_returning id is_open_request (decide_as status who) db ≡ done o db'
      → (answered status ≡ o) × (db' ≡ decided status)
  unfolding update_returning decided
  update_returning-state status h = (cc h, cc h)

  approved-IsProjected :
      (row : LeaveRequest) {o : Option LeaveRequest} {db' : Db}
      → answered approved ≡ some row
      → project approved id row who (decided approved) ≡ committed o db'
      → IsProjected db
      → IsProjected db'
  unfolding decided
  approved-IsProjected row is h p =
      let (e, db₂, found, h₁) = query-then _ _ _ (decided approved) h in
      let (u, db₃, written, h₂) = >>=-committed _ _ db₂ h₁ in
      let there =
        returned-found id is_open_request (decide_as approved who) db.leave_requests (λ lr. refl)
          is in
      let (of_row, same) = find_enrolment_id_tx-state id (decided approved) there found in
      let state = project-state row.session_id e who db₂ written in
      let ended = (pure-state db₃ h₂).1 in
      let db₁ = decided approved in
      let final : _ ≡ record db₁ {
        attendance_records = upserted row.session_id row.enrolment_id leave who db₁;
        drawn = db₁.drawn + 1;
      } =
        ended ∙ state ∙ (rw (same, of_row) refl) in
      rw final (
        all-settled row who db₁ db₁.leave_requests
          (all-decided id who approved db.attendance_records db.leave_requests is p))

  declined-IsProjected :
      (status : LeaveStatus)
      → is_approved status ≡ false
      → IsProjected db
      → IsProjected (decided status)
  unfolding decided
  declined-IsProjected status other p =
      all-update id is_open_request (decide_as status who) (is_projected db.attendance_records)
        db.leave_requests (λ lr go h. rw other refl) p

  unanswered-IsProjected :
      (status : LeaveStatus)
      → answered status ≡ none
      → IsProjected db
      → IsProjected (decided status)
  unfolding decided
  unanswered-IsProjected status e p =
      rw (update-none id is_open_request (decide_as status who) db.leave_requests e) p

  project-IsProjected :
      (status : LeaveStatus) (row : LeaveRequest) {o : Option LeaveRequest} {db' : Db}
      → answered status ≡ some row
      → project status id row who (decided status) ≡ committed o db'
      → IsProjected db
      → IsProjected db'
  project-IsProjected approved row is h p = approved-IsProjected row is h p
  project-IsProjected pending row is h p =
      rw (pure-state (decided pending) h).1 (declined-IsProjected pending refl p)
  project-IsProjected rejected row is h p =
      rw (pure-state (decided rejected) h).1 (declined-IsProjected rejected refl p)
  project-IsProjected LeaveStatus.cancelled row is h p =
      rw (pure-state (decided LeaveStatus.cancelled) h).1
        (declined-IsProjected LeaveStatus.cancelled refl p)

  project_decided-IsProjected :
      (status : LeaveStatus) (r : Option LeaveRequest) {o : Option LeaveRequest} {db' : Db}
      → answered status ≡ r
      → project_decided status id who r (decided status) ≡ committed o db'
      → IsProjected db
      → IsProjected db'
  project_decided-IsProjected status none is h p =
      rw (pure-state (decided status) h).1 (unanswered-IsProjected status is p)
  project_decided-IsProjected status (some row) is h p = project-IsProjected status row is h p

  pub decide_tx-IsProjected :
      (status : LeaveStatus) {o : Option LeaveRequest} {db' : Db}
      → decide_tx id status who db ≡ committed o db'
      → IsProjected db
      → IsProjected db'
  unfolding decide_tx
  decide_tx-IsProjected status h p =
      let (r, db₁, flipped, h₁) = query-then _ _ _ db h in
      let (is, same) = update_returning-state status flipped in
      project_decided-IsProjected status r is (rw same at h₁) p

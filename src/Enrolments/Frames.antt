-- ===== src/Enrolments/Frames.antt =====
-- Every code that writes enrolments keeps the courses within their places.
use dream_fly_backend.Prelude.{◌≡◌, refl, Bool, List, [], ◌∷◌, ◌++◌, arith}
use dream_fly_backend.Base.{Uuid, Instant}
use dream_fly_backend.Courses.SeatQueries.{find_course}
use dream_fly_backend.Courses.Seats.{CourseLocks}
use dream_fly_backend.Db.{
  Db, committed, Same, but_seats, RespectsSql, Respects, query-Respects, >>=-Respects,
  pure-Respects, lift-Respects,
}
use dream_fly_backend.Enrolments.Capacity.{
  IsSeated, IsUnique, Seats, Seats-IsFrame, in_course, cancel_where-count, enrol_one_tx-IsEnrolled,
  IsEnrolled-IsSeated, IsEnrolled-IsUnique,
}
use dream_fly_backend.Enrolments.Model.{Enrolment}
use dream_fly_backend.Enrolments.Repository.{
  holds_seat, cancel_where, is_open_of, cancel_if_active_tx, find_by_id_tx,
}
use dream_fly_backend.Enrolments.Repository
use dream_fly_backend.Enrolments.Service.{
  enrol_one_tx, enrol_each_tx, enrol_batch_from_purchase_tx, cancel_by_order_tx, cancel_leaves_of,
}
use dream_fly_backend.Leave.Repository.{
  cancel_leaves, is_pending_of, cancel_pending_for_enrolments_tx,
}
use dream_fly_backend.Points.Service.{BalanceLock}

pub enrol_one_tx-Seats :
    (locks : CourseLocks) (user course order : Uuid) (now : Instant)
    → Respects Seats (enrol_one_tx locks user course order now)
enrol_one_tx-Seats locks user course order now db e db' h =
    let d = enrol_one_tx-IsEnrolled locks user course order now db h in
    (
      rw d.state refl,
      IsEnrolled-IsSeated user course order now e db db' d,
      IsEnrolled-IsUnique user course order now e db db' d,
    )

enrol_each_tx-Seats :
    (locks : CourseLocks) (user : Uuid) (courses : List Uuid) (order : Uuid) (now : Instant)
    (sofar : List Enrolment)
    → Respects Seats (enrol_each_tx locks user courses order now sofar)
unfolding enrol_each_tx
enrol_each_tx-Seats locks user [] order now sofar = pure-Respects Seats-IsFrame sofar
enrol_each_tx-Seats locks user (course ∷ courses) order now sofar =
    >>=-Respects Seats-IsFrame (enrol_one_tx-Seats locks user course order now)
      (λ e. enrol_each_tx-Seats locks user courses order now (sofar ++ e ∷ []))

-- A purchase's enrolments, when they commit, leave no course with more active enrolments than
-- places and nobody enrolled twice, if that was so before.
pub enrol_batch-Seats :
    (locks : CourseLocks) (buyer : BalanceLock) (courses : List Uuid) (order : Uuid) (now : Instant)
    → Respects Seats (enrol_batch_from_purchase_tx locks buyer courses order now)
unfolding enrol_batch_from_purchase_tx
enrol_batch-Seats locks buyer courses order now =
    >>=-Respects Seats-IsFrame (lift-Respects Seats-IsFrame _)
      (λ ordered. enrol_each_tx-Seats locks buyer.user_id ordered order now [])

cancel_where-Seats :
    (p : Enrolment → Bool) (db : Db)
    → Seats db (record db { enrolments = cancel_where p db.enrolments })
unfolding find_course
cancel_where-Seats p db = (
  refl,
  λ h course max listed.
      let old = h course max listed in
      let fewer = cancel_where-count p (in_course course) db.enrolments (λ e. refl) in omega arith,
  λ h user course.
      let old = h user course in
      let fewer = cancel_where-count p (holds_seat user course) db.enrolments (λ e. refl) in
      omega arith,
)

cancel_pending-Seats : (ids : List Uuid) → RespectsSql Seats (cancel_pending_for_enrolments_tx ids)
unfolding cancel_pending_for_enrolments_tx find_course
cancel_pending-Seats ids db n db' e =
    let state : db'
        ≡ record db { leave_requests = cancel_leaves (is_pending_of ids) db.leave_requests } =
      cc in
    rw state (refl, λ h. h, λ h. h)

pub cancel_by_order_tx-Seats : (order : Uuid) → Respects Seats (cancel_by_order_tx order)
unfolding cancel_by_order_tx Repository.cancel_by_order_tx
cancel_by_order_tx-Seats order =
    >>=-Respects Seats-IsFrame
      (query-Respects Seats-IsFrame _ _ (λ db ids db' e.
        let state : db' ≡ record db { enrolments = cancel_where (is_open_of order) db.enrolments } =
          cc in
        rw state (cancel_where-Seats (is_open_of order) db)))
      (λ ids. >>=-Respects Seats-IsFrame (leaves ids) (λ u. pure-Respects Seats-IsFrame _))
  where
    leaves : (ids : List Uuid) → Respects Seats (cancel_leaves_of ids)
    leaves [] = pure-Respects Seats-IsFrame tt
    leaves (id ∷ ids) =
        >>=-Respects Seats-IsFrame
          (query-Respects Seats-IsFrame _ _ (cancel_pending-Seats (id ∷ ids)))
          (λ n. pure-Respects Seats-IsFrame tt)

-- A purchase's enrolments, when they commit, leave no course with more active enrolments than
-- places and nobody enrolled twice, if that was so before, and write nothing but enrolments, leave
-- requests and the supply of ids.
pub enrol_batch_keeps_places :
    (locks : CourseLocks) (buyer : BalanceLock) (courses : List Uuid) (order : Uuid) (now : Instant)
    (db : Db) {es : List Enrolment} {db' : Db}
    → IsSeated db
    → IsUnique db
    → enrol_batch_from_purchase_tx locks buyer courses order now db ≡ committed es db'
    → IsSeated db' × IsUnique db' × Same but_seats db db'
enrol_batch_keeps_places locks buyer courses order now db seated unique e =
    let (same, keeps, once) = enrol_batch-Seats locks buyer courses order now db _ _ e in
    (keeps seated, once unique, same)

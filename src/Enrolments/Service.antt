-- ===== src/Enrolments/Service.antt =====
-- src/modules/enrolments/service.rs: enrolling from a purchase, and cancelling.
use dream_fly_backend.Prelude.{ℕ, List, [], ◌∷◌, ◌++◌, length}
use dream_fly_backend.Base.{Uuid, Instant}
use dream_fly_backend.AppError.{Result, not_found, conflict, conflict_on_unique, plain}
use dream_fly_backend.Courses.Seats.{CourseLocks, in_lock_order, is_full}
use dream_fly_backend.Courses.SeatQueries.{course_seats_tx}
use dream_fly_backend.Db.{
  Db, Tx, ◌>>=◌, ◌>>◌, pure, lift, some_or, query, query_or, reject_if, transaction,
}
use dream_fly_backend.Enrolments.Model.{Enrolment}
use dream_fly_backend.Enrolments.Repository.{
  exists_active_tx, insert_tx, find_by_id_tx, cancel_if_active_tx,
}
use dream_fly_backend.Enrolments.Repository
use dream_fly_backend.Extractors.Auth.{AuthUser, owns_or_admin}
use dream_fly_backend.Leave.Repository.{cancel_pending_for_enrolments_tx}
use dream_fly_backend.Points.Service.{BalanceLock}

unfoldable pub enrol_one_tx : CourseLocks → Uuid → Uuid → Uuid → Instant → Tx Enrolment
enrol_one_tx locks user course order now = do
  found ← course_seats_tx locks course
  seats ← some_or found (not_found (plain "course not found"))
  reject_if (is_full seats) (conflict (plain "course is full"))
  enrolled ← query (exists_active_tx user course)
  reject_if enrolled (conflict (plain "already enrolled"))
  query_or (λ e. conflict_on_unique e (plain "already enrolled")) (insert_tx user course order now)

-- The loop over the courses in lock order.
unfoldable pub enrol_each_tx :
    CourseLocks → Uuid → List Uuid → Uuid → Instant → List Enrolment → Tx (List Enrolment)
enrol_each_tx locks user [] order now enrolments = pure enrolments
enrol_each_tx locks user (course ∷ courses) order now enrolments = do
  enrolment ← enrol_one_tx locks user course order now
  enrol_each_tx locks user courses order now (enrolments ++ enrolment ∷ [])

unfoldable pub enrol_batch_from_purchase_tx :
    CourseLocks → BalanceLock → List Uuid → Uuid → Instant → Tx (List Enrolment)
enrol_batch_from_purchase_tx locks buyer course_ids order now = do
  ordered ← lift (in_lock_order locks course_ids (λ id. id))
  enrol_each_tx locks buyer.user_id ordered order now []

-- The answer is the cancelled row, from which the handler's DTO is built.
unfoldable pub cancel_enrolment_body : AuthUser → Uuid → Tx Enrolment
cancel_enrolment_body auth id = do
  found ← query (find_by_id_tx id)
  enrolment ← some_or found (not_found (plain "enrolment not found"))
  lift (owns_or_admin auth enrolment.user_id "you can only cancel your own enrolments")
  cancelled ← query (cancel_if_active_tx id)
  updated ← some_or cancelled (conflict (plain "enrolment already cancelled"))
  flipped ← query (cancel_pending_for_enrolments_tx (id ∷ []))
  pure updated

unfoldable pub cancel_enrolment : AuthUser → Uuid → Db → Result Enrolment × Db
cancel_enrolment auth id = transaction (cancel_enrolment_body auth id)

-- `if !flipped.is_empty() { .. }`
abbrev pub cancel_leaves_of : List Uuid → Tx (Unit {0})
cancel_leaves_of [] = pure tt
cancel_leaves_of (id ∷ ids) = do n ← query (cancel_pending_for_enrolments_tx (id ∷ ids)); pure tt

unfoldable pub cancel_by_order_tx : Uuid → Tx ℕ
cancel_by_order_tx order = do
  flipped ← query (Repository.cancel_by_order_tx order)
  cancel_leaves_of flipped
  pure (length flipped)

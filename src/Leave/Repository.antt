-- ===== src/Leave/Repository.antt =====
-- src/modules/leave/repository.rs: the statements on `leave_requests` that enrolments use.
use dream_fly_backend.Prelude.{ℕ, Bool, ◌&&◌, List, map, count, any, ◌==◌, if◌then◌else◌}
use dream_fly_backend.Base.{Uuid}
use dream_fly_backend.Db.{Sql, done}
use dream_fly_backend.Leave.Model.{LeaveRequest, LeaveStatus, is_pending}

abbrev pub is_pending_of : List Uuid → LeaveRequest → Bool
is_pending_of ids lr = any (λ i. i == lr.enrolment_id) ids && is_pending lr.status

unfoldable pub cancel_leaves : (LeaveRequest → Bool) → List LeaveRequest → List LeaveRequest
cancel_leaves p lrs =
    map (λ lr. if p lr then record lr { status = LeaveStatus.cancelled } else lr) lrs

unfoldable pub cancel_pending_for_enrolments_tx : List Uuid → Sql ℕ
cancel_pending_for_enrolments_tx ids db =
    done (count (is_pending_of ids) db.leave_requests)
      (record db { leave_requests = cancel_leaves (is_pending_of ids) db.leave_requests })

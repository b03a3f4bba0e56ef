-- ===== src/Orders/Sound/Refunds.antt =====
-- A change of status, with its refund, keeps the invariant.
use dream_fly_backend.Prelude.{String, Option}
use dream_fly_backend.Base.{Uuid, Instant}
use dream_fly_backend.AppError.{SqlxError}
use dream_fly_backend.Db.{Db}
use dream_fly_backend.Orders.Frame.Statuses.{update_order_status-Respects}
use dream_fly_backend.Orders.Sound.{IsSound}
use dream_fly_backend.Orders.Sound.Statements.{Sound-IsShop}
use dream_fly_backend.Orders.Status.{update_order_status}

-- A change of status, with the refund it may bring and whatever its answer, keeps the invariant:
-- every balance is the sum of its user's ledger and not negative, no stock is negative, no course
-- has more active enrolments than places, and nobody is enrolled twice in one course.
pub update_order_status-IsSound :
    (id : Uuid) (text : String) (correlation : Option String) (now : Instant)
    (unread : Option SqlxError) (db : Db)
    → IsSound db
    → IsSound (update_order_status id text correlation now unread db).1
update_order_status-IsSound id text correlation now unread db h =
    update_order_status-Respects Sound-IsShop id text correlation now unread db h

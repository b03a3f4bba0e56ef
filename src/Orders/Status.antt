-- ===== src/Orders/Status.antt =====
-- src/modules/orders/service.rs: the status of an order, and the compensation of a refund.
use dream_fly_backend.Prelude.{String, Option, none, some, [], ◌∷◌}
use dream_fly_backend.Base.{Uuid, Instant}
use dream_fly_backend.AppError.{
  Result, ok, err, SqlxError, not_found, validation, plain, format, str,
}
use dream_fly_backend.Db.{
  Db, Tx, ◌>>=◌, ◌>>◌, pure, lift, some_or, query, transaction, order_status_changed,
  order_status_updated,
}
use dream_fly_backend.Enrolments.Service.{cancel_by_order_tx}
use dream_fly_backend.Orders.Checkout.{deliver}
use dream_fly_backend.Orders.Locks.{acquire_refund_locks}
use dream_fly_backend.Orders.Model.{Order, OrderStatus, status_from_str}
use dream_fly_backend.Orders.Placing.{insert_domain_event_tx}
use dream_fly_backend.Orders.Refund.{
  TransitionDecision, no_op, flip, flip_and_compensate, decide_transition,
}
use dream_fly_backend.Orders.Repository.{find_by_id, update_status_tx}
use dream_fly_backend.Orders.Responses.{OrderResponse, assemble_response}
use dream_fly_backend.Points.Service.{reverse_order_tx}
use dream_fly_backend.Products.Service.{restore_for_order_tx}
use dream_fly_backend.Subscriptions.Service as Subscriptions

unfoldable pub compensate_order_artifacts_tx : Order → Instant → Tx (Unit {0})
compensate_order_artifacts_tx order now = do
  locks ← acquire_refund_locks order
  reverse_order_tx locks.balance order.id now
  restore_for_order_tx locks.restock
  enrolments ← cancel_by_order_tx order.id
  subscriptions ← Subscriptions.cancel_by_order_tx order.id
  pure tt

-- The status statement and its event; `some` means that the status has changed.
abbrev pub flip_tx : Uuid → OrderStatus → Option String → Tx (Order × Option OrderStatus)
flip_tx id target correlation = do
  updated ← query (update_status_tx id target)
  order ← some_or updated (not_found (plain "order not found"))
  query (insert_domain_event_tx (order_status_changed order.id order.user_id target correlation))
  pure (order, some target)

-- The `match` on the decision.
abbrev pub decided :
    Uuid
    → Order
    → OrderStatus
    → Option String
    → Instant
    → TransitionDecision
    → Tx (Order × Option OrderStatus)
decided id current target correlation now no_op = pure (current, none)
decided id current target correlation now flip = flip_tx id target correlation
decided id current target correlation now flip_and_compensate = do
  compensate_order_artifacts_tx current now
  flip_tx id target correlation

unfoldable pub update_status_body :
    Uuid → OrderStatus → Option String → Instant → Tx (Order × Option OrderStatus)
update_status_body id target correlation now = do
  found ← query (find_by_id id)
  current ← some_or found (not_found (plain "order not found"))
  decision ← lift (decide_transition current.status target)
  decided id current target correlation now decision

-- The notification of a change, after the commit.
abbrev pub notify_change :
    Option SqlxError → Result (Order × Option OrderStatus) × Db → Result OrderResponse × Db
notify_change unread (err e, db) = (err e, db)
notify_change unread (ok (order, none), db) = assemble_response unread order db
notify_change unread (ok (order, some target), db) =
    assemble_response unread order
      (deliver (order_status_updated order.user_id order.id order.order_number target) db)

abbrev pub run_target :
    Uuid
    → Option OrderStatus
    → String
    → Option String
    → Instant
    → Option SqlxError
    → Db
    → Result OrderResponse × Db
run_target id none text correlation now unread db =
    (err (validation (format "invalid order status: {}" (str text ∷ []))), db)
run_target id (some target) text correlation now unread db =
    notify_change unread (transaction (update_status_body id target correlation now) db)

unfoldable pub update_order_status :
    Uuid → String → Option String → Instant → Option SqlxError → Db → Result OrderResponse × Db
update_order_status id text correlation now unread db =
    run_target id (status_from_str text) text correlation now unread db

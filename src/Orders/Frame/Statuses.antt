-- ===== src/Orders/Frame/Statuses.antt =====
-- Changes of status with their refunds, whatever their outcome.
use dream_fly_backend.Prelude.{String, Option, none, some, inl, inr}
use dream_fly_backend.Base.{Uuid, Instant}
use dream_fly_backend.AppError.{Result, ok, err, SqlxError}
use dream_fly_backend.Db.{
  Db, Respects, TxOut-cases, transaction-run, transaction-stop, query-Respects, >>=-Respects,
  pure-Respects, lift-Respects, IsFrame, some_or-Respects, select-Respects,
}
use dream_fly_backend.Enrolments.Frames.{cancel_by_order_tx-Seats}
use dream_fly_backend.Orders.Locks.{acquire_refund_locks}
use dream_fly_backend.Orders.Model.{Order, OrderStatus, status_from_str}
use dream_fly_backend.Orders.Refund.{TransitionDecision, no_op, flip, flip_and_compensate}
use dream_fly_backend.Orders.Repository.{find_by_id}
use dream_fly_backend.Orders.Sound.Reads.{lock_balance-Respects, lock_products-Respects}
use dream_fly_backend.Orders.Status.{
  compensate_order_artifacts_tx, flip_tx, decided, update_status_body, notify_change, run_target,
  update_order_status,
}
use dream_fly_backend.Points.Repository.{find_order_flow_sums_tx}
use dream_fly_backend.Points.Service.{BalanceLock, reverse_order_tx}
use dream_fly_backend.Products.Repository.{find_stock_traces_by_order_tx}
use dream_fly_backend.Products.Service.{lock_restock_for_order_tx}
use dream_fly_backend.Products.Service.Stock.{restore_for_order_tx-Stocks}
use dream_fly_backend.Subscriptions.Service.{cancel_by_order_tx}
use dream_fly_backend.Orders.Frame.{IsShop}
use dream_fly_backend.Orders.Frame.Steps.{apply_deltas-Respects}

module _ {R : Db → Db → Type 0} (shop : IsShop R) where
  frame : IsFrame R
  frame = shop.base

  acquire_refund_locks-Respects : (order : Order) → Respects R (acquire_refund_locks order)
  unfolding acquire_refund_locks lock_restock_for_order_tx find_stock_traces_by_order_tx
  acquire_refund_locks-Respects order =
      >>=-Respects frame (lock_balance-Respects frame order.user_id) λ balance.
        >>=-Respects frame
          (>>=-Respects frame (query-Respects frame _ _ (select-Respects frame _)) λ traces.
            >>=-Respects frame (lock_products-Respects frame _) λ locks. pure-Respects frame _)
          λ restock. pure-Respects frame _

  reverse_order-Respects :
      (lock : BalanceLock) (order : Uuid) (now : Instant)
      → Respects R (reverse_order_tx lock order now)
  unfolding reverse_order_tx find_order_flow_sums_tx
  reverse_order-Respects lock order now =
      >>=-Respects frame (query-Respects frame _ _ (select-Respects frame _))
        λ flow. apply_deltas-Respects shop lock _ now

  compensate-Respects :
      (order : Order) (now : Instant) → Respects R (compensate_order_artifacts_tx order now)
  unfolding compensate_order_artifacts_tx cancel_by_order_tx
  compensate-Respects order now = >>=-Respects frame (acquire_refund_locks-Respects order) λ locks.
      >>=-Respects frame (reverse_order-Respects locks.balance order.id now) λ u.
        >>=-Respects frame
          (λ db r db' e. shop.stocks db db' (restore_for_order_tx-Stocks _ db r db' e))
          λ v.
            >>=-Respects frame
              (λ db r db' e. shop.seats db db' (cancel_by_order_tx-Seats order.id db r db' e))
              λ m.
                >>=-Respects frame (query-Respects frame _ _ (shop.ungrant order.id))
                  λ n. pure-Respects frame tt

  flip-Respects :
      (id : Uuid) (target : OrderStatus) (correlation : Option String)
      → Respects R (flip_tx id target correlation)
  flip-Respects id target correlation =
      >>=-Respects frame (query-Respects frame _ _ (shop.status id target)) λ found.
        >>=-Respects frame (some_or-Respects frame found _) λ order.
          >>=-Respects frame (query-Respects frame _ _ (shop.event _)) λ u. pure-Respects frame _

  decided-Respects :
      (id : Uuid) (current : Order) (target : OrderStatus) (correlation : Option String)
      (now : Instant) (d : TransitionDecision)
      → Respects R (decided id current target correlation now d)
  decided-Respects id current target correlation now no_op = pure-Respects frame _
  decided-Respects id current target correlation now flip = flip-Respects id target correlation
  decided-Respects id current target correlation now flip_and_compensate =
      >>=-Respects frame (compensate-Respects current now) λ u. flip-Respects id target correlation

  update_status_body-Respects :
      (id : Uuid) (target : OrderStatus) (correlation : Option String) (now : Instant)
      → Respects R (update_status_body id target correlation now)
  unfolding update_status_body find_by_id
  update_status_body-Respects id target correlation now =
      >>=-Respects frame (query-Respects frame _ _ (select-Respects frame _)) λ found.
        >>=-Respects frame (some_or-Respects frame found _) λ current.
          >>=-Respects frame (lift-Respects frame _)
            λ d. decided-Respects id current target correlation now d

  notify_change-R :
      (unread : Option SqlxError) (r : Result (Order × Option OrderStatus)) (db : Db)
      → R db (notify_change unread (r, db)).1
  notify_change-R unread (err e) db = frame.stay db
  notify_change-R none (ok (order, none)) db = frame.stay db
  notify_change-R (some e) (ok (order, none)) db = frame.stay db
  notify_change-R none (ok (order, some target)) db = shop.notice _ db
  notify_change-R (some e) (ok (order, some target)) db = shop.notice _ db

  run_target-R :
      (id : Uuid) (target : Option OrderStatus) (text : String) (correlation : Option String)
      (now : Instant) (unread : Option SqlxError) (db : Db)
      → R db (run_target id target text correlation now unread db).1
  run_target-R id none text correlation now unread db = frame.stay db
  run_target-R id (some target) text correlation now unread db =
      elim (TxOut-cases (update_status_body id target correlation now db)) [
        | inl (r, db', e) ↦ rw (transaction-run _ _ e) (
            frame.go db db' _ (update_status_body-Respects id target correlation now db r db' e)
              (notify_change-R unread (ok r) db'))
        | inr (x, e) ↦ rw (transaction-stop _ _ e) (frame.stay db)
      ]

  pub update_order_status-Respects :
      (id : Uuid) (text : String) (correlation : Option String) (now : Instant)
      (unread : Option SqlxError) (db : Db)
      → R db (update_order_status id text correlation now unread db).1
  unfolding update_order_status
  update_order_status-Respects id text correlation now unread db =
      run_target-R id (status_from_str text) text correlation now unread db

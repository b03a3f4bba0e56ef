-- ===== src/Orders/Checkout.antt =====
-- src/modules/orders/service.rs: `checkout`, around its transaction.
use dream_fly_backend.Prelude.{String, Option, none, some, [], ◌∷◌, ◌++◌}
use dream_fly_backend.Base.{Uuid, Instant}
use dream_fly_backend.AppError.{Result, ok, err, SqlxError, bad_request, plain}
use dream_fly_backend.Db.{Db, Notice, order_placed, TxOut, committed, rolled_back}
use dream_fly_backend.Orders.Idempotency.{IdempotencyKey, replay, replay_or, replay_twin}
use dream_fly_backend.Orders.Placing.{Ending, placed, empty_cart, replayed, checkout_tx}
use dream_fly_backend.Orders.Request.{CheckoutRequest, CheckoutIntent, parse_request}
use dream_fly_backend.Orders.Responses.{OrderResponse, assemble_response}

-- `PendingNotification::deliver`
unfoldable pub deliver : Notice → Db → Db
deliver notice db = record db { notifications = db.notifications ++ notice ∷ [] }

-- A transaction that ends without an order is released, not committed.
-- `unread` is the error of a read of the response after the commit, if one fails.
abbrev pub conclude :
    Option SqlxError → Option IdempotencyKey → Db → TxOut Ending → Result OrderResponse × Db
conclude unread key db (rolled_back e) = (err e, db)
conclude unread key db (committed (empty_cart buyer) db') =
    (replay_or buyer key (bad_request (plain "cart is empty")) db, db)
conclude unread key db (committed (replayed user k) db') = (replay_twin user k db, db)
conclude unread key db (committed (placed order) db') =
    assemble_response unread order
      (deliver (order_placed order.user_id order.id order.order_number) db')

module _ (upper : String → String) (stamp : Instant → String) where
  abbrev pub run_intent :
      Uuid
      → Option IdempotencyKey
      → Option String
      → Instant
      → Option SqlxError
      → Db
      → Result CheckoutIntent
      → Result OrderResponse × Db
  run_intent user key correlation now unread db (err e) = (err e, db)
  run_intent user key correlation now unread db (ok intent) =
      conclude unread key db (checkout_tx upper stamp user key intent correlation now db)

  abbrev pub after_replay :
      Uuid
      → Option IdempotencyKey
      → CheckoutRequest
      → Option String
      → Instant
      → Option SqlxError
      → Db
      → Result (Option OrderResponse)
      → Result OrderResponse × Db
  after_replay user key req correlation now unread db (err e) = (err e, db)
  after_replay user key req correlation now unread db (ok (some response)) = (ok response, db)
  after_replay user key req correlation now unread db (ok none) =
      run_intent user key correlation now unread db (parse_request req)

  -- `before` is the state that the first replay reads, `db` the one under the buyer's lock:
  -- what other sessions commit in between makes them differ.
  unfoldable pub checkout :
      Uuid
      → Option IdempotencyKey
      → CheckoutRequest
      → Option String
      → Instant
      → Option SqlxError
      → Db
      → Db
      → Result OrderResponse × Db
  checkout user key req correlation now unread before db =
      after_replay user key req correlation now unread db (replay user key before)

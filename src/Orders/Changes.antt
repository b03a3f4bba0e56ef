-- ===== src/Orders/Changes.antt =====
-- src/modules/orders/service.rs: every outcome of a change of status, and when it compensates.
use dream_fly_backend.Prelude.{
  ◌≡◌, ◌⊎◌, String, true, false, Option, none, some, [], ◌∷◌, ◌++◌, find,
}
use dream_fly_backend.Base.{Uuid, Instant}
use dream_fly_backend.AppError.{AppError, SqlxError, Result, err, validation, format, str}
use dream_fly_backend.Db.{Db, committed, order_status_changed, order_status_updated}
use dream_fly_backend.Orders.Checkout.{deliver}
use dream_fly_backend.Orders.Model.{
  Order, OrderStatus, status_from_str, can_transition_to, is_revenue,
}
use dream_fly_backend.Orders.Refusals.{Stopped}
use dream_fly_backend.Orders.Repository.{is_order, set_status}
use dream_fly_backend.Orders.Responses.{OrderResponse, assemble_response}
use dream_fly_backend.Orders.Status.{compensate_order_artifacts_tx}

-- From `mid` on: the status is set, and the event is queued.
abbrev pub flipped : Uuid → Order → OrderStatus → Option String → Db → Db
flipped id row target correlation mid = record mid {
  orders = set_status id target mid.orders;
  outbox = mid.outbox ++ order_status_changed row.id row.user_id target correlation ∷ [];
}

-- What a change has written: first the compensation, if the order loses a revenue status and only
-- then, and after it the status with its event.
pub record IsFlipped (id : Uuid) (current : Order) (target : OrderStatus)
    (correlation : Option String) (now : Instant) (db db' : Db) : Type 0 where
  pub allowed : can_transition_to current.status target ≡ true
  pub mid : Db
  pub compensated :
      ((is_revenue current.status ≡ true)
        × (is_revenue target ≡ false)
        × (compensate_order_artifacts_tx current now db ≡ committed tt mid))
      ⊎ ((is_revenue target ≡ is_revenue current.status) × (mid ≡ db))
  pub row : Order
  pub found : find (is_order id) mid.orders ≡ some row
  pub state : db' ≡ flipped id row target correlation mid

-- What a committed body has found and written.
abbrev pub Change :
    Uuid → OrderStatus → Option String → Instant → Db → Order → Option OrderStatus → Db → Type 0
Change id target correlation now db order change db' =
    (current : Order) × (find (is_order id) db.orders ≡ some current)
    × (((current.status ≡ target) × (change ≡ none) × (order ≡ current) × (db' ≡ db))
        ⊎ ((change ≡ some target)
            × ((it : IsFlipped id current target correlation now db db') × (order
                  ≡ record it.row { status = target }))))

abbrev pub Outcome :
    Uuid
    → String
    → Option String
    → Instant
    → Option SqlxError
    → Db
    → Result OrderResponse × Db
    → Type 0
Outcome id text correlation now unread db r =
    ((e : AppError) × (r ≡ (err e, db))
      × (((status_from_str text ≡ none)
            × (e ≡ validation (format "invalid order status: {}" (str text ∷ []))))
          ⊎ ((target : OrderStatus) × (status_from_str text ≡ some target)
              × Stopped id target now db e)))
    ⊎ ((target : OrderStatus) × (current : Order) × (status_from_str text ≡ some target)
        × (find (is_order id) db.orders ≡ some current)
        × (((current.status ≡ target) × (r ≡ assemble_response unread current db))
            ⊎ ((db' : Db) × (it : IsFlipped id current target correlation now db db') × (r
                  ≡ assemble_response unread (record it.row { status = target })
                      (deliver
                        (order_status_updated it.row.user_id it.row.id it.row.order_number target)
                        db')))))

-- ===== src/Orders/Responses.antt =====
-- src/modules/orders/service.rs and dto.rs: the full response of an order, and reading one.
use dream_fly_backend.Prelude.{List, filter, Option, none, some}
use dream_fly_backend.Base.{Uuid}
use dream_fly_backend.AppError.{ok, err, SqlxError, database_error, not_found, plain}
use dream_fly_backend.Db.{Db}
use dream_fly_backend.Db.Pool.{Pool, ◌>>=◌, ◌>>◌, query, lift, some_or}
use dream_fly_backend.Enrolments.Model.{Enrolment}
use dream_fly_backend.Enrolments.Repository.{find_by_order}
use dream_fly_backend.Extractors.Auth.{AuthUser, owns_or_admin}
use dream_fly_backend.Orders.Model.{Order, OrderItem}
use dream_fly_backend.Orders.Repository.{find_by_id, find_items_by_order}
use dream_fly_backend.Subscriptions.Model.{Subscription}
use dream_fly_backend.Subscriptions.Repository.{is_of}

-- The rows of the response, before the DTOs rename their fields.
pub record OrderResponse : Type 0 where
  pub order : Order
  pub items : List OrderItem
  pub enrolments : List Enrolment
  pub subscriptions : List Subscription

unfoldable pub assemble : Order → Db → OrderResponse
assemble order db = record {
  order = order;
  items = find_items_by_order order.id db;
  enrolments = find_by_order order.id db;
  subscriptions = filter (λ s. is_of s.order_id order.id) db.subscriptions;
}

-- The reads of the response, on the pool: `unread` is the error of the one that fails, if one does.
abbrev pub assemble_response : Option SqlxError → Order → Pool OrderResponse
assemble_response none order db = (ok (assemble order db), db)
assemble_response (some e) order db = (err (database_error e), db)

unfoldable pub get_order : Uuid → AuthUser → Option SqlxError → Pool OrderResponse
get_order id auth unread = do
  found ← query (find_by_id id)
  order ← some_or found (not_found (plain "order not found"))
  lift (owns_or_admin auth order.user_id "not authorized to view this order")
  assemble_response unread order

-- ===== src/Orders/Repository.antt =====
-- src/modules/orders/repository.rs: the statements on `orders` and `order_items`.
use text.Mathlib.Text.{◌==◌ as str_eq}
use dream_fly_backend.Prelude.{
  ℕ, ◌+◌, ℤ, pos, ltb_ℤ, leb_ℤ, String, Bool, ◌||◌, Option, none, some, List, [], ◌∷◌, ◌++◌, filter,
  find, any, ◌==◌, length, if◌then◌else◌,
}
use dream_fly_backend.Base.{Uuid, Instant}
use dream_fly_backend.AppError.{database, check_violation, unique_violation}
use dream_fly_backend.Db.{Db, Sql, done, failed, select}
use dream_fly_backend.Orders.Fulfilment.{OrderLine}
use dream_fly_backend.Orders.Model.{Order, OrderItem, OrderStatus}

pub record OrderAmounts : Type 0 where
  pub total_cents : ℤ
  pub discount_cents : ℤ
  pub points_used : ℤ
  pub points_earned : ℤ

pub record NewOrder : Type 0 where
  pub user_id : Uuid
  pub order_number : String
  pub status : OrderStatus
  pub amounts : OrderAmounts
  pub coupon_code : Option String
  pub payment_method : Option String
  pub paid_at : Option Instant
  pub created_at : Instant

abbrev pub new_order : Uuid → NewOrder → Order
new_order id o = record {
  id = id;
  user_id = o.user_id;
  order_number = o.order_number;
  status = o.status;
  total_cents = o.amounts.total_cents;
  discount_cents = o.amounts.discount_cents;
  coupon_code = o.coupon_code;
  points_used = o.amounts.points_used;
  points_earned = o.amounts.points_earned;
  payment_method = o.payment_method;
  paid_at = o.paid_at;
  created_at = o.created_at;
}

-- The `CHECK`s: no amount is negative.
abbrev pub is_refused : OrderAmounts → Bool
is_refused a =
    ltb_ℤ a.total_cents (pos 0)
    || ltb_ℤ a.discount_cents (pos 0)
    || ltb_ℤ a.points_used (pos 0)
    || ltb_ℤ a.points_earned (pos 0)

abbrev pub is_number : String → Order → Bool
is_number number o = str_eq o.order_number number

unfoldable pub create_order : NewOrder → Sql Order
create_order new db =
    let row = new_order (db.uuids db.drawn) new in
    if is_refused new.amounts
    then failed (database check_violation (some "orders_total_nonneg"))
    else (if any (is_number new.order_number) db.orders
        then failed (database unique_violation (some "orders_order_number_key"))
        else done row (record db { orders = db.orders ++ row ∷ []; drawn = db.drawn + 1 }))

abbrev pub new_item : Uuid → Uuid → Instant → OrderLine → OrderItem
new_item id order now line = record {
  id = id;
  order_id = order;
  target = line.target;
  quantity = line.quantity;
  unit_price_cents = line.price_cents;
  name = line.name;
  stock_decremented = line.stock_decremented;
  created_at = now;
}

unfoldable pub new_items : (ℕ → Uuid) → ℕ → Uuid → Instant → List OrderLine → List OrderItem
new_items uuids n order now [] = []
new_items uuids n order now (line ∷ lines) =
    new_item (uuids n) order now line ∷ new_items uuids (n + 1) order now lines

-- `order_items_quantity_pos` and `order_items_unit_price_nonneg`
abbrev pub is_bad_line : OrderLine → Bool
is_bad_line line = leb_ℤ line.quantity (pos 0) || ltb_ℤ line.price_cents (pos 0)

unfoldable pub create_order_items : Uuid → List OrderLine → Instant → Sql (List OrderItem)
create_order_items order lines now db =
    let rows = new_items db.uuids db.drawn order now lines in
    if any is_bad_line lines
    then failed (database check_violation (some "order_items_quantity_pos"))
    else done rows
        (record db { order_items = db.order_items ++ rows; drawn = db.drawn + length lines })

abbrev pub is_order : Uuid → Order → Bool
is_order id o = o.id == id

-- `find_by_id` and `find_by_id_tx`
unfoldable pub find_by_id : Uuid → Sql (Option Order)
find_by_id id = select λ db. find (is_order id) db.orders

unfoldable pub find_items_by_order : Uuid → Db → List OrderItem
find_items_by_order order db = filter (λ i. i.order_id == order) db.order_items

unfoldable pub set_status : Uuid → OrderStatus → List Order → List Order
set_status id status [] = []
set_status id status (o ∷ os) =
    if is_order id o then record o { status = status } ∷ os else o ∷ set_status id status os

abbrev pub with_status : OrderStatus → Option Order → Option Order
with_status status none = none
with_status status (some o) = some (record o { status = status })

unfoldable pub update_status_tx : Uuid → OrderStatus → Sql (Option Order)
update_status_tx id status db =
    done (with_status status (find (is_order id) db.orders))
      (record db { orders = set_status id status db.orders })

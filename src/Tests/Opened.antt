-- ===== src/Tests/Opened.antt =====
-- The definitions that a run of checkout or of a refund opens, as one name.
use dream_fly_backend.Prelude.{
  ◌+ℤ◌, ◌-ℤ◌, ◌*ℤ◌, ◌/ℤ◌, neg_ℤ, min_ℤ, check_word, wrap_word, sort_by_key, trim, ℕ,
}
use dream_fly_backend.AppError.{conflict_on_unique}
use dream_fly_backend.Db.{◌>>=◌, lift, some_or, reject_if, query_or, new_uuid, transaction}
use dream_fly_backend.Points.Model.{
  delta_checkout_redeem, delta_checkout_earn, delta_redeem, delta_admin_adjust, reversal_deltas,
}
use dream_fly_backend.Points.Repository.{
  find_balance, select_balance_tx, set_balance, adjust_balance_tx, insert_ledger_tx, order_sum,
  find_order_flow_sums_tx,
}
use dream_fly_backend.Points.Service.{
  lock_balance_tx, apply_delta_tx, apply_deltas_tx, reverse_order_tx, try_spend_tx, adjust_points,
}
use dream_fly_backend.Products.Model.{ensure_line_quantity}
use dream_fly_backend.Products.Repository.{
  find_product, select_products_tx, set_stock, try_decrement_stock_tx,
  find_stock_traces_by_order_tx, restore_stock_tx,
}
use dream_fly_backend.Products.Locks.{
  row, pair_rows, rows_in_lock_order, in_lock_order, ensure_line_quantities, restock_lines,
}
use dream_fly_backend.Products.Service.{
  lock_products_tx, reserve_lines, reserve_stock_tx, lock_restock_for_order_tx, restore_lines,
  restore_for_order_tx,
}
use dream_fly_backend.Courses.Seats.{is_full, covers}
use dream_fly_backend.Courses.SeatQueries.{
  find_course, lock_courses_tx, count_active, course_seats_tx,
}
use dream_fly_backend.Enrolments.Repository.{exists_active_tx, find_by_order, cancel_where}
use dream_fly_backend.Enrolments.Service.{enrol_one_tx, enrol_each_tx, enrol_batch_from_purchase_tx}
use dream_fly_backend.Leave.Repository.{cancel_leaves, cancel_pending_for_enrolments_tx}
use dream_fly_backend.Subscriptions.Repository.{cancel_subscriptions}
use dream_fly_backend.Subscriptions.Service.{grant_from_purchase_tx}
use dream_fly_backend.Cart.Repository.{
  listing, clear_cart, find_checkout_targets_tx, find_cart_items_for_checkout_tx,
}
use dream_fly_backend.Coupons.Repository.{normalize_code, find_valid_by_code}
use dream_fly_backend.Orders.Model.{status_from_str}
use dream_fly_backend.Orders.Refund.{decide_transition}
use dream_fly_backend.Orders.Fulfilment.{plan, ensure_all_purchasable, order_lines}
use dream_fly_backend.Orders.Pricing.{ledger_deltas, price}
use dream_fly_backend.Orders.Repository.{
  create_order, new_items, create_order_items, find_items_by_order, set_status, update_status_tx,
}
use dream_fly_backend.Orders.Locks.{acquire_checkout_locks, acquire_refund_locks}
use dream_fly_backend.Orders.Idempotency.{
  find_idempotency, insert_idempotency_tx, replay_by_key, replay, replay_or, replay_twin,
  record_key,
}
use dream_fly_backend.Orders.Responses.{assemble}
use dream_fly_backend.Orders.Request.{parse_request, order_number}
use dream_fly_backend.Orders.Placing.{
  grant_each, insert_domain_event_tx, place_order_tx, checkout_lines, checkout_tx,
}
use dream_fly_backend.Orders.Checkout.{deliver, checkout}
use dream_fly_backend.Orders.Status.{
  compensate_order_artifacts_tx, update_status_body, update_order_status,
}
use dream_fly_backend.Enrolments.Repository as EnrolmentRows
use dream_fly_backend.Enrolments.Service as EnrolmentCode
use dream_fly_backend.Subscriptions.Repository as SubscriptionRows
use dream_fly_backend.Subscriptions.Service as SubscriptionCode
use dream_fly_backend.Courses.Seats as SeatLocks
use dream_fly_backend.Subscriptions.Entitlement as Entitlement
use dream_fly_backend.Orders.Repository as OrderRows

-- Unfolding it unfolds them all.
unfoldable pub opened : ℕ
unfolding ◌+ℤ◌ ◌-ℤ◌ ◌*ℤ◌ ◌/ℤ◌ neg_ℤ min_ℤ check_word wrap_word sort_by_key trim conflict_on_unique
    ◌>>=◌ lift some_or reject_if query_or new_uuid transaction delta_checkout_redeem
    delta_checkout_earn delta_redeem delta_admin_adjust reversal_deltas find_balance
    select_balance_tx set_balance adjust_balance_tx insert_ledger_tx order_sum
    find_order_flow_sums_tx lock_balance_tx apply_delta_tx apply_deltas_tx reverse_order_tx
    try_spend_tx adjust_points ensure_line_quantity find_product select_products_tx set_stock
    try_decrement_stock_tx find_stock_traces_by_order_tx restore_stock_tx row pair_rows
    rows_in_lock_order in_lock_order ensure_line_quantities restock_lines lock_products_tx
    reserve_lines reserve_stock_tx lock_restock_for_order_tx restore_lines restore_for_order_tx
    is_full covers find_course lock_courses_tx count_active course_seats_tx exists_active_tx
    find_by_order cancel_where enrol_one_tx enrol_each_tx enrol_batch_from_purchase_tx cancel_leaves
    cancel_pending_for_enrolments_tx cancel_subscriptions grant_from_purchase_tx listing clear_cart
    find_checkout_targets_tx find_cart_items_for_checkout_tx normalize_code find_valid_by_code
    status_from_str decide_transition plan ensure_all_purchasable order_lines ledger_deltas price
    create_order new_items create_order_items find_items_by_order set_status update_status_tx
    acquire_checkout_locks acquire_refund_locks find_idempotency insert_idempotency_tx replay_by_key
    replay replay_or replay_twin record_key assemble parse_request order_number grant_each
    insert_domain_event_tx place_order_tx checkout_lines checkout_tx deliver checkout
    compensate_order_artifacts_tx update_status_body update_order_status EnrolmentRows.insert_tx
    EnrolmentRows.cancel_by_order_tx EnrolmentCode.cancel_by_order_tx SubscriptionRows.insert_tx
    SubscriptionRows.cancel_by_order_tx SubscriptionCode.cancel_by_order_tx SeatLocks.in_lock_order
    Entitlement.plan OrderRows.find_by_id
opened = 0

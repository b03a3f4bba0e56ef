-- ===== src/Points/Repository.antt =====
-- src/modules/points/repository.rs: the statements on `users.points_balance` and `point_ledger`.
pub mod Balances
use dream_fly_backend.Prelude.{
  ℤ, pos, ◌+ℤ◌, neg_ℤ, ltb_ℤ, check_word, i64_half, Bool, true, false, ◌&&◌, Option, none, some,
  List, [], ◌∷◌, find, any, ◌==◌, if◌then◌else◌,
}
use dream_fly_backend.Base.{Uuid, Instant}
use dream_fly_backend.AppError.{database, check_violation, unique_violation, other_state}
use dream_fly_backend.Db.{Db, UserRow, Sql, done, failed, select}
use dream_fly_backend.Points.Model.{
  PointReason, checkout_earn, checkout_redeem, refund_restore, refund_clawback, OrderPointsFlow,
  LedgerRow,
}

abbrev pub is_user : Uuid → UserRow → Bool
is_user id u = u.id == id

abbrev pub balance_of : Option UserRow → Option ℤ
balance_of none = none
balance_of (some u) = some u.points_balance

unfoldable pub find_balance : Uuid → Db → Option ℤ
find_balance user_id db = balance_of (find (is_user user_id) db.users)

-- `SELECT points_balance .. FOR UPDATE`
unfoldable pub select_balance_tx : Uuid → Sql (Option ℤ)
select_balance_tx user_id = select (find_balance user_id)

-- `UPDATE users SET points_balance = .. WHERE id = ..`; the primary key leaves one row at most.
unfoldable pub set_balance : Uuid → ℤ → List UserRow → List UserRow
set_balance id balance [] = []
set_balance id balance (u ∷ us) =
    if is_user id u
    then record u { points_balance = balance } ∷ us
    else u ∷ set_balance id balance us

-- BIGINT overflow is an error of its own; then `CHECK (points_balance >= 0)`.
abbrev pub write_balance : Uuid → Option ℤ → Sql (Option ℤ)
write_balance id none db = failed (database other_state none)
write_balance id (some balance) db =
    if ltb_ℤ balance (pos 0)
    then failed (database check_violation (some "users_points_balance_check"))
    else done (some balance) (record db { users = set_balance id balance db.users })

abbrev pub add_to_balance : Uuid → ℤ → Option ℤ → Sql (Option ℤ)
add_to_balance id delta none db = done none db
add_to_balance id delta (some old) db = write_balance id (check_word i64_half (old +ℤ delta)) db

unfoldable pub adjust_balance_tx : Uuid → ℤ → Sql (Option ℤ)
adjust_balance_tx id delta db = add_to_balance id delta (find_balance id db) db

abbrev pub same_reason : PointReason → PointReason → Bool
same_reason checkout_earn checkout_earn = true
same_reason checkout_redeem checkout_redeem = true
same_reason PointReason.admin_adjust PointReason.admin_adjust = true
same_reason PointReason.redeem PointReason.redeem = true
same_reason refund_restore refund_restore = true
same_reason refund_clawback refund_clawback = true
same_reason _ _ = false

abbrev pub is_order : Uuid → Option Uuid → Bool
is_order id none = false
is_order id (some o) = o == id

-- `COALESCE(SUM(delta) FILTER (WHERE reason = ..), 0) .. WHERE order_id = ..`
unfoldable pub order_sum : Uuid → PointReason → List LedgerRow → ℤ
order_sum order reason [] = pos 0
order_sum order reason (row ∷ rows) =
    (if is_order order row.order_id && same_reason row.reason reason then row.delta else pos 0)
    +ℤ order_sum order reason rows

unfoldable pub find_order_flow_sums_tx : Uuid → Sql OrderPointsFlow
find_order_flow_sums_tx order = select λ db. record {
  earned = order_sum order checkout_earn db.point_ledger;
  redeemed = neg_ℤ (order_sum order checkout_redeem db.point_ledger);
}

abbrev pub is_refund : PointReason → Bool
is_refund refund_restore = true
is_refund refund_clawback = true
is_refund _ = false

abbrev pub is_once : Option Uuid → PointReason → LedgerRow → Bool
is_once none reason row = false
is_once (some order) reason row =
    is_refund reason && is_order order row.order_id && same_reason row.reason reason

-- With the partial unique index `uniq_point_ledger_refund_once`.
unfoldable pub insert_ledger_tx : Uuid → ℤ → PointReason → Option Uuid → Instant → Sql (Unit {0})
insert_ledger_tx user_id delta reason order now db =
    if any (is_once order reason) db.point_ledger
    then failed (database unique_violation (some "uniq_point_ledger_refund_once"))
    else done tt (record db {
      point_ledger =
          record {
            user_id = user_id;
            delta = delta;
            reason = reason;
            order_id = order;
            created_at = now;
          }
          ∷ db.point_ledger;
    })

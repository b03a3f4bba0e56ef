-- ===== src/Points/Service.antt =====
-- src/modules/points/service.rs: every write of a points balance goes through `apply_delta_tx`.
pub mod Ledger
pub mod Batches
pub mod Runs
pub mod Adjust
pub mod Outcomes
pub mod Spending
use dream_fly_backend.Prelude.{ℤ, pos, ltb_ℤ, leb_ℤ, eqb_ℤ, not, ◌&&◌, List, [], ◌∷◌, if◌then◌else◌}
use dream_fly_backend.Base.{Uuid, Instant}
use dream_fly_backend.AppError.{
  AppError, Result, not_found, validation, conflict, internal, database_error, plain, format, int,
  uuid, SqlxError, database, other, is_check, is_constraint,
}
use dream_fly_backend.Db.{
  Db, Tx, ◌>>=◌, ◌>>◌, pure, reject_if, some_or, query, query_or, transaction,
}
use dream_fly_backend.Points.Model.{LedgerDelta, delta_redeem, delta_admin_adjust, reversal_deltas}
use dream_fly_backend.Points.Repository.{
  select_balance_tx, adjust_balance_tx, insert_ledger_tx, find_order_flow_sums_tx,
}

-- Witness of the `FOR UPDATE` lock on the user's row; only `lock_balance_tx` makes one.
pub record BalanceLock : Type 0 where
  pub user_id : Uuid
  pub balance : ℤ

unfoldable pub lock_balance_tx : Uuid → Tx BalanceLock
lock_balance_tx user_id = do
  found ← query (select_balance_tx user_id)
  balance ← some_or found (not_found (plain "user not found"))
  pure (record { user_id = user_id; balance = balance })

-- The error arms of the `match` on the balance update.
abbrev balance_error : SqlxError → AppError
balance_error (database state c) =
    if is_check state && is_constraint c "users_points_balance_check"
    then conflict (plain "點數不足")
    else database_error (database state c)
balance_error other = database_error other

unfoldable pub apply_delta_tx : BalanceLock → LedgerDelta → Instant → Tx ℤ
apply_delta_tx lock ld now = do
  reject_if (eqb_ℤ ld.delta (pos 0)) (validation (plain "delta must be non-zero"))
  updated ← query_or balance_error (adjust_balance_tx lock.user_id ld.delta)
  balance_after ←
      some_or updated
        (internal (format "users row {} missing under its BalanceLock" (uuid lock.user_id ∷ [])))
  query (insert_ledger_tx lock.user_id ld.delta ld.reason ld.order_id now)
  pure balance_after

-- `for delta in deltas { apply_delta_tx(..)?; }`
unfoldable pub apply_deltas_tx : BalanceLock → List LedgerDelta → Instant → Tx (Unit {0})
apply_deltas_tx lock [] now = pure tt
apply_deltas_tx lock (ld ∷ lds) now = do
  balance ← apply_delta_tx lock ld now
  apply_deltas_tx lock lds now

unfoldable pub try_spend_tx : Uuid → ℤ → Instant → Tx ℤ
try_spend_tx user_id cost now = do
  reject_if (leb_ℤ cost (pos 0)) (validation (plain "cost must be positive"))
  lock ← lock_balance_tx user_id
  reject_if (ltb_ℤ lock.balance cost) (conflict (plain "點數不足"))
  apply_delta_tx lock (delta_redeem cost) now

unfoldable pub reverse_order_tx : BalanceLock → Uuid → Instant → Tx (Unit {0})
reverse_order_tx lock order_id now = do
  flow ← query (find_order_flow_sums_tx order_id)
  apply_deltas_tx lock (reversal_deltas flow order_id) now

pub record AdjustPointsRequest : Type 0 where
  pub user_id : Uuid
  pub delta : ℤ
  pub expected_balance : ℤ

unfoldable pub adjust_points : AdjustPointsRequest → Instant → Db → Result ℤ × Db
adjust_points req now = transaction do
  lock ← lock_balance_tx req.user_id
  reject_if (not (eqb_ℤ lock.balance req.expected_balance)) (
      conflict (
        format "balance mismatch: expected {}, actual {}"
          (int req.expected_balance ∷ int lock.balance ∷ [])))
  apply_delta_tx lock (delta_admin_adjust req.delta) now

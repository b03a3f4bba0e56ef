-- ===== src/Points/Service/Runs.antt =====
-- When one write of points goes through, and what it leaves.
use dream_fly_backend.Prelude.{
  ◌≡◌, refl, ℤ, pos, ◌+ℤ◌, ◌≤ℤ◌, eqb_ℤ, false, some, ◌∷◌, arith, any, check_word-in, i64_half,
  InI64, ◌∙◌,
}
use dream_fly_backend.Base.{Instant}
use dream_fly_backend.Db.{Db, done, committed, query-run, some_or-run, reject_if-run}
use dream_fly_backend.Points.Model.{LedgerDelta}
use dream_fly_backend.Points.Repository.{
  find_balance, set_balance, is_once, adjust_balance_tx, insert_ledger_tx,
}
use dream_fly_backend.Points.Service.{BalanceLock, apply_delta_tx}
use dream_fly_backend.Points.Service.Ledger.{ledger_row}

abbrev pub after_delta : BalanceLock → LedgerDelta → Instant → ℤ → Db → Db
after_delta lock ld now b db = record db {
  users = set_balance lock.user_id b db.users;
  point_ledger = ledger_row lock ld now ∷ db.point_ledger;
}

-- A write that the row, the column and the indexes allow.
pub record CanApply (lock : BalanceLock) (ld : LedgerDelta) (b : ℤ) (db : Db) : Type 0 where
  pub found : find_balance lock.user_id db ≡ some b
  pub nonzero : eqb_ℤ ld.delta (pos 0) ≡ false
  pub fits : InI64 (b +ℤ ld.delta)
  pub nonneg : pos 0 ≤ℤ b +ℤ ld.delta
  pub once : any (is_once ld.order_id ld.reason) db.point_ledger ≡ false

adjust_balance_tx-runs :
    (lock : BalanceLock) (ld : LedgerDelta) (db : Db) {b : ℤ}
    → CanApply lock ld b db
    → adjust_balance_tx lock.user_id ld.delta db
      ≡ done
          (some (b +ℤ ld.delta))
          (record db { users = set_balance lock.user_id (b +ℤ ld.delta) db.users })
unfolding adjust_balance_tx
adjust_balance_tx-runs lock ld db {b} h =
    let nonneg = h.nonneg in
    rw (h.found, check_word-in i64_half (b +ℤ ld.delta) h.fits) (ground (arith, nonneg))

insert_ledger_tx-runs :
    (lock : BalanceLock) (ld : LedgerDelta) (now : Instant) (db : Db)
    → any (is_once ld.order_id ld.reason) db.point_ledger ≡ false
    → insert_ledger_tx lock.user_id ld.delta ld.reason ld.order_id now db
      ≡ done tt (record db { point_ledger = ledger_row lock ld now ∷ db.point_ledger })
unfolding insert_ledger_tx
insert_ledger_tx-runs lock ld now db h = rw h refl

pub apply_delta_tx-runs :
    (lock : BalanceLock) (ld : LedgerDelta) (now : Instant) (db : Db) {b : ℤ}
    → CanApply lock ld b db
    → apply_delta_tx lock ld now db
      ≡ committed (b +ℤ ld.delta) (after_delta lock ld now (b +ℤ ld.delta) db)
unfolding apply_delta_tx
apply_delta_tx-runs lock ld now db {b} h =
    reject_if-run _ _ _ _ h.nonzero
    ∙ query-run _ _ _ _ (adjust_balance_tx-runs lock ld db h)
    ∙ some_or-run _ _ _ _ refl
    ∙ query-run _ _ _ _ (insert_ledger_tx-runs lock ld now _ h.once)

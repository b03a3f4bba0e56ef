-- ===== src/Points/Service/Adjust.antt =====
-- The administrator's adjustment and the spending of points, on all their branches.
use dream_fly_backend.Prelude.{
  ◌≡◌, refl, sym, ℤ, pos, ◌+ℤ◌, eqb_ℤ, ltb_ℤ, true, false, Option, none, some, arith, any,
  check_word, i64_half, ◌∙◌, if◌then◌else◌, Option-cases, Bool-cases, inl, inr, check_word-some,
}
use dream_fly_backend.Base.{Instant, Uuid}
use dream_fly_backend.AppError.{
  not_found, conflict, validation, database_error, plain, database, other_state, check_violation,
}
use dream_fly_backend.Db.{
  Db, TxOut, failed, committed, rolled_back, query-run, query-stop, some_or-run, some_or-stop,
  reject_if-run, reject_if-stop,
}
use dream_fly_backend.Points.Model.{LedgerDelta}
use dream_fly_backend.Points.Repository.{
  find_balance, is_once, adjust_balance_tx, select_balance_tx,
}
use dream_fly_backend.Points.Service.{BalanceLock, apply_delta_tx, lock_balance_tx}
use dream_fly_backend.Points.Service.Runs.{apply_delta_tx-runs, after_delta}

abbrev pub lock_of : Uuid → ℤ → BalanceLock
lock_of user b = record { user_id = user; balance = b }

pub lock_balance_tx-runs :
    (user : Uuid) (db : Db) {b : ℤ}
    → find_balance user db ≡ some b
    → lock_balance_tx user db ≡ committed (lock_of user b) db
unfolding lock_balance_tx select_balance_tx
lock_balance_tx-runs user db e = query-run _ _ _ _ refl ∙ some_or-run _ _ _ _ e

pub lock_balance_tx-stops :
    (user : Uuid) (db : Db)
    → find_balance user db ≡ none
    → lock_balance_tx user db ≡ rolled_back (not_found (plain "user not found"))
unfolding lock_balance_tx select_balance_tx
lock_balance_tx-stops user db e = query-run _ _ _ _ refl ∙ some_or-stop _ _ _ _ e

-- The outcome of a write on a balance: refused at zero, outside `i64` and below zero, else done.
abbrev pub written : BalanceLock → LedgerDelta → Instant → Db → Option ℤ → TxOut ℤ
written lock ld now db none = rolled_back (database_error (database other_state none))
written lock ld now db (some new) =
    if ltb_ℤ new (pos 0)
    then rolled_back (conflict (plain "點數不足"))
    else committed new (after_delta lock ld now new db)

abbrev pub applied : BalanceLock → LedgerDelta → Instant → Db → ℤ → TxOut ℤ
applied lock ld now db b =
    if eqb_ℤ ld.delta (pos 0)
    then rolled_back (validation (plain "delta must be non-zero"))
    else written lock ld now db (check_word i64_half (b +ℤ ld.delta))

adjust_balance_tx-overflows :
    (id : Uuid) (delta : ℤ) (db : Db) {b : ℤ}
    → find_balance id db ≡ some b
    → check_word i64_half (b +ℤ delta) ≡ none
    → adjust_balance_tx id delta db ≡ failed (database other_state none)
unfolding adjust_balance_tx
adjust_balance_tx-overflows id delta db e f = rw (e, f) refl

adjust_balance_tx-below :
    (id : Uuid) (delta : ℤ) (db : Db) {b new : ℤ}
    → find_balance id db ≡ some b
    → check_word i64_half (b +ℤ delta) ≡ some new
    → ltb_ℤ new (pos 0) ≡ true
    → adjust_balance_tx id delta db
      ≡ failed (database check_violation (some "users_points_balance_check"))
unfolding adjust_balance_tx
adjust_balance_tx-below id delta db e f g = rw (e, f) (ground (arith, g))

pub apply_delta_tx-eq :
    (lock : BalanceLock) (ld : LedgerDelta) (now : Instant) (db : Db) {b : ℤ}
    → find_balance lock.user_id db ≡ some b
    → any (is_once ld.order_id ld.reason) db.point_ledger ≡ false
    → apply_delta_tx lock ld now db ≡ applied lock ld now db b
unfolding apply_delta_tx
apply_delta_tx-eq lock ld now db {b} found once = elim (Bool-cases (eqb_ℤ ld.delta (pos 0))) [
  | inl zero ↦ reject_if-stop _ _ _ _ zero ∙ sym (rw zero refl)
  | inr nonzero ↦ elim (Option-cases (check_word i64_half (b +ℤ ld.delta))) [
    | inl out ↦
        reject_if-run _ _ _ _ nonzero
        ∙ query-stop _ _ _ _ (adjust_balance_tx-overflows lock.user_id ld.delta db found out)
        ∙ sym (rw (nonzero, out) refl)
    | inr (new, fits) ↦
        let (sum, inside) = check_word-some i64_half (b +ℤ ld.delta) fits in
        elim (Bool-cases (ltb_ℤ new (pos 0))) [
          | inl below ↦
              reject_if-run _ _ _ _ nonzero
              ∙ query-stop _ _ _ _
                  (adjust_balance_tx-below lock.user_id ld.delta db found fits below)
              ∙ sym (rw (nonzero, fits, below) refl)
          | inr above ↦
              apply_delta_tx-runs lock ld now db (record {
                found = found;
                nonzero = nonzero;
                fits = inside;
                nonneg = rw (← sum) (ground (arith, above));
                once = once;
              })
              ∙ sym (rw (nonzero, fits, above, sum) refl)
        ]
  ]
]

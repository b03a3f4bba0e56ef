-- ===== src/Points/Service/Ledger.antt =====
-- A user's balance is the sum of that user's ledger, and no write of points breaks that.
use dream_fly_backend.Prelude.{
  ◌≡◌, refl, ℤ, pos, ◌+ℤ◌, ◌≤ℤ◌, eqb_ℤ, false, some, List, [], ◌∷◌, arith, inl, inr, if◌then◌else◌,
  ◌==◌, ==_iff, Bool-cases, +ℤ_comm, zero-+ℤ,
}
use dream_fly_backend.Base.{Uuid, Instant}
use dream_fly_backend.Db.{Db, committed, query-then, some_or-then, reject_if-then}
use dream_fly_backend.Points.Model.{LedgerRow, LedgerDelta}
use dream_fly_backend.Points.Repository.{find_balance, set_balance}
use dream_fly_backend.Points.Repository.Balances.{
  adjust_balance_tx-IsAdjusted, insert_ledger_tx-state,
}
use dream_fly_backend.Points.Service.{BalanceLock, apply_delta_tx}

-- The sum of a user's ledger rows.
abbrev pub ledger_total : Uuid → List LedgerRow → ℤ
ledger_total id [] = pos 0
ledger_total id (row ∷ rows) =
    (if row.user_id == id then row.delta else pos 0) +ℤ ledger_total id rows

-- Every balance is the sum of its user's ledger, and not negative.
abbrev pub IsSettled : Db → Type 0
IsSettled db =
    (id : Uuid) (balance : ℤ)
    → find_balance id db ≡ some balance
    → (balance ≡ ledger_total id db.point_ledger) × (pos 0 ≤ℤ balance)

abbrev pub ledger_row : BalanceLock → LedgerDelta → Instant → LedgerRow
ledger_row lock ld now = record {
  user_id = lock.user_id;
  delta = ld.delta;
  reason = ld.reason;
  order_id = ld.order_id;
  created_at = now;
}

-- What a committed `apply_delta_tx` has done.
pub record IsApplied (lock : BalanceLock) (ld : LedgerDelta) (now : Instant) (b : ℤ) (db db' : Db)
    : Type 0 where
  pub old : ℤ
  pub found : find_balance lock.user_id db ≡ some old
  pub sum : b ≡ old +ℤ ld.delta
  pub nonneg : pos 0 ≤ℤ b
  pub nonzero : eqb_ℤ ld.delta (pos 0) ≡ false
  pub balances :
      (j : Uuid) → find_balance j db' ≡ (if lock.user_id == j then some b else find_balance j db)
  pub state : db' ≡ record db {
    users = set_balance lock.user_id b db.users;
    point_ledger = ledger_row lock ld now ∷ db.point_ledger;
  }

pub apply_delta_tx-IsApplied :
    (lock : BalanceLock) (ld : LedgerDelta) (now : Instant) (db : Db) {b : ℤ} {db' : Db}
    → apply_delta_tx lock ld now db ≡ committed b db'
    → IsApplied lock ld now b db db'
unfolding apply_delta_tx find_balance
apply_delta_tx-IsApplied lock ld now db {b} {db'} e =
    let (nonzero, e₁) = reject_if-then _ _ _ db e in
    let (updated, db₁, adjust, e₂) = query-then _ _ _ db e₁ in
    let (after, found, e₃) = some_or-then _ _ _ db₁ e₂ in
    let (u, db₂, insert, e₄) = query-then _ _ _ db₁ e₃ in
    let same : after ≡ b = cc in
    let adj = adjust_balance_tx-IsAdjusted lock.user_id ld.delta db (rw (found, same) at adjust) in
    let row = insert_ledger_tx-state lock.user_id ld.delta ld.reason ld.order_id now db₁ insert in
    let state : db' ≡ record db₁ { point_ledger = ledger_row lock ld now ∷ db₁.point_ledger } =
      cc in
    record {
      old = adj.old;
      found = adj.found;
      sum = adj.sum;
      nonneg = adj.nonneg;
      nonzero = nonzero;
      balances = λ j. rw state (adj.balances j);
      state = rw state (rw adj.state refl);
    }

-- One write keeps every balance equal to the sum of its user's ledger.
pub apply_delta_tx-IsSettled :
    (lock : BalanceLock) (ld : LedgerDelta) (now : Instant) (db : Db) {b : ℤ} {db' : Db}
    → IsSettled db
    → apply_delta_tx lock ld now db ≡ committed b db'
    → IsSettled db'
apply_delta_tx-IsSettled lock ld now db {b} h e id balance f =
    let done = apply_delta_tx-IsApplied lock ld now db e in
    let old = h lock.user_id done.old done.found in
    let f' = done.balances id in
    let state = done.state in
    rw state (elim (Bool-cases (lock.user_id == id)) [
      | inl me ↦
          let mine : lock.user_id ≡ id = (==_iff lock.user_id id).0 me in
          let before : done.old ≡ ledger_total id db.point_ledger = rw (← mine) old.0 in
          ground (arith, me, f', before, +ℤ_comm done.old ld.delta, done.sum, done.nonneg)
      | inr other ↦
          let kept : find_balance id db ≡ some balance = ground (arith, f', other) in
          ground (arith, other, zero-+ℤ (ledger_total id db.point_ledger), h id balance kept)
    ])

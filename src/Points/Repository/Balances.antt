-- ===== src/Points/Repository/Balances.antt =====
-- What the statements on balances and on the ledger do to the state.
use dream_fly_backend.Prelude.{
  ◌≡◌, ℤ, pos, ◌+ℤ◌, ◌≤ℤ◌, InI64, check_word, check_word-some, i64_half, Option, some, List, [],
  ◌∷◌, find, arith, inl, inr, if◌then◌else◌, ◌==◌, Option-cases,
}
use dream_fly_backend.Base.{Uuid, Instant}
use dream_fly_backend.Db.{Db, UserRow, done}
use dream_fly_backend.Points.Model.{PointReason}
use dream_fly_backend.Points.Repository.{
  find_balance, set_balance, balance_of, is_user, adjust_balance_tx, insert_ledger_tx,
}

find-set_balance :
    (i j : Uuid) (v : ℤ) (us : List UserRow) {old : ℤ}
    → balance_of (find (is_user i) us) ≡ some old
    → balance_of (find (is_user j) (set_balance i v us))
      ≡ (if i == j then some v else balance_of (find (is_user j) us))
unfolding set_balance
find-set_balance i j v [] h = ground arith
find-set_balance i j v (u ∷ us) {old} h = ground (arith, find-set_balance i j v us {old = old})

-- What `adjust_balance_tx` has done when it found the row.
pub record IsAdjusted (id : Uuid) (delta b : ℤ) (db db' : Db) : Type 0 where
  pub old : ℤ
  pub found : find_balance id db ≡ some old
  pub sum : b ≡ old +ℤ delta
  pub fits : InI64 b
  pub nonneg : pos 0 ≤ℤ b
  pub state : db' ≡ record db { users = set_balance id b db.users }
  pub balances : (j : Uuid) → find_balance j db' ≡ (if id == j then some b else find_balance j db)

pub adjust_balance_tx-IsAdjusted :
    (id : Uuid) (delta : ℤ) (db : Db) {b : ℤ} {db' : Db}
    → adjust_balance_tx id delta db ≡ done (some b) db'
    → IsAdjusted id delta b db db'
unfolding adjust_balance_tx find_balance
adjust_balance_tx-IsAdjusted id delta db {b} {db'} e = elim (Option-cases (find_balance id db)) [
  | inl missing ↦ absurd (ground arith)
  | inr (old, found) ↦ elim (Option-cases (check_word i64_half (old +ℤ delta))) [
    | inl overflow ↦ absurd (ground arith)
    | inr (new, fits) ↦
        let (sum, inside) = check_word-some i64_half (old +ℤ delta) fits in
        let same : b ≡ new = ground arith in
        record {
          old = old;
          found = found;
          sum = ground arith;
          fits = ground arith;
          nonneg = ground arith;
          state = ground arith;
          balances = λ j. ground (arith, find-set_balance id j new db.users {old = old});
        }
  ]
]

pub insert_ledger_tx-state :
    (user : Uuid) (delta : ℤ) (reason : PointReason) (order : Option Uuid) (now : Instant) (db : Db)
    {u : Unit} {db' : Db}
    → insert_ledger_tx user delta reason order now db ≡ done u db'
    → db' ≡ record db {
      point_ledger =
          record {
            user_id = user;
            delta = delta;
            reason = reason;
            order_id = order;
            created_at = now;
          }
          ∷ db.point_ledger;
    }
unfolding insert_ledger_tx
insert_ledger_tx-state user delta reason order now db e = ground arith

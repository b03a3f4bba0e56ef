-- ===== src/Points/Service/Batches.antt =====
-- Several writes in one transaction: the loops of checkout and of refunds, spending, adjusting.
use dream_fly_backend.Prelude.{
  ◌≡◌, refl, Bool, true, false, ◌&&◌, zero-+ℤ, ℤ, pos, ◌+ℤ◌, ◌-ℤ◌, Option, none, some, List, [],
  ◌∷◌, arith, inl, inr, if◌then◌else◌, ◌==◌, ==_iff, int_laws, Bool-cases, Option-cases, +ℤ_assoc,
  neg_ℤ,
}
use dream_fly_backend.Base.{Uuid, Instant}
use dream_fly_backend.Db.{Db, committed, query-then, >>=-committed}
use dream_fly_backend.Points.Model.{
  PointReason, LedgerRow, checkout_earn, checkout_redeem, LedgerDelta, OrderPointsFlow,
  reversal_deltas,
}
use dream_fly_backend.Points.Model.Signs.{sum_deltas, IsFlow, reversal_deltas_signed}
use dream_fly_backend.Points.Repository.{
  find_balance, find_order_flow_sums_tx, order_sum, same_reason,
}
use dream_fly_backend.Points.Service.{BalanceLock, apply_deltas_tx, reverse_order_tx}
use dream_fly_backend.Points.Service.Ledger.{
  IsSettled, apply_delta_tx-IsApplied, apply_delta_tx-IsSettled,
}

+-zero : (a : ℤ) → a +ℤ pos 0 ≡ a
+-zero a = omega int_laws

abbrev pub shift : ℤ → Option ℤ → Option ℤ
shift d none = none
shift d (some b) = some (b +ℤ d)

-- The balances after a batch: one user's has moved by the sum, no other has moved.
abbrev pub Moves : Uuid → ℤ → Db → Db → Type 0
Moves user d db db' =
    (j : Uuid)
    → find_balance j db' ≡ (if user == j then shift d (find_balance j db) else find_balance j db)

pub apply_deltas_tx-Moves :
    (lock : BalanceLock) (lds : List LedgerDelta) (now : Instant) (db : Db) {u : Unit} {db' : Db}
    → apply_deltas_tx lock lds now db ≡ committed u db'
    → Moves lock.user_id (sum_deltas lds) db db'
unfolding apply_deltas_tx
apply_deltas_tx-Moves lock [] now db {u} {db'} e j =
    let same : db' ≡ db = cc in
    rw same (elim (Option-cases (find_balance j db)) [
      | inl missing ↦ ground (arith, missing)
      | inr (b, found) ↦ ground (arith, found, +-zero b)
    ])
apply_deltas_tx-Moves lock (ld ∷ lds) now db e j =
    let (b, db₁, e₁, e₂) = >>=-committed _ _ db e in
    let done = apply_delta_tx-IsApplied lock ld now db e₁ in
    let rest = apply_deltas_tx-Moves lock lds now db₁ e₂ j in
    let one = done.balances j in
    elim (Bool-cases (lock.user_id == j)) [
      | inl me ↦
          let mine : lock.user_id ≡ j = (==_iff lock.user_id j).0 me in
          let found : find_balance j db ≡ some done.old = rw (← mine) done.found in
          ground
            (arith, me, rest, one, found, done.sum, +ℤ_assoc done.old ld.delta (sum_deltas lds))
      | inr other ↦ ground (arith, other, rest, one)
    ]

pub apply_deltas_tx-IsSettled :
    (lock : BalanceLock) (lds : List LedgerDelta) (now : Instant) (db : Db) {u : Unit} {db' : Db}
    → IsSettled db
    → apply_deltas_tx lock lds now db ≡ committed u db'
    → IsSettled db'
unfolding apply_deltas_tx
apply_deltas_tx-IsSettled lock [] now db {u} {db'} h e = let same : db' ≡ db = cc in rw same h
apply_deltas_tx-IsSettled lock (ld ∷ lds) now db h e =
    let (b, db₁, e₁, e₂) = >>=-committed _ _ db e in
    apply_deltas_tx-IsSettled lock lds now db₁ (apply_delta_tx-IsSettled lock ld now db h e₁) e₂

-- The deltas of an order's ledger rows of one kind, added up.
abbrev pub total : (PointReason → Bool) → Uuid → List LedgerRow → ℤ
total p order [] = pos 0
total p order (row ∷ rows) =
    let rest = total p order rows in
    elim row.order_id [
      | none ↦ rest
      | some o ↦ if (o == order) && p row.reason then row.delta +ℤ rest else rest
    ]

abbrev pub is_earned : PointReason → Bool
is_earned checkout_earn = true
is_earned _ = false

abbrev pub is_redeemed : PointReason → Bool
is_redeemed checkout_redeem = true
is_redeemed _ = false

-- What the checkout's ledger rows of an order have given and taken.
abbrev pub flow_of : Uuid → Db → OrderPointsFlow
flow_of order db = record {
  earned = total is_earned order db.point_ledger;
  redeemed = neg_ℤ (total is_redeemed order db.point_ledger);
}

order_sum-total :
    (p : PointReason → Bool) (reason : PointReason) (order : Uuid) (rows : List LedgerRow)
    → ((r : PointReason) → same_reason r reason ≡ p r)
    → order_sum order reason rows ≡ total p order rows
unfolding order_sum
order_sum-total p reason order [] h = refl
order_sum-total p reason order (row ∷ rows) h =
    let rest = order_sum-total p reason order rows h in
    elim (Option-cases row.order_id) [
      | inl without ↦ rw (without, rest) (zero-+ℤ _)
      | inr (o, is) ↦
          rw (is, h row.reason, rest)
            (elim (Bool-cases ((o == order) && p row.reason)) [
              | inl hit ↦ rw hit refl
              | inr miss ↦ rw miss (zero-+ℤ _)
            ])
    ]

same_earned : (r : PointReason) → same_reason r checkout_earn ≡ is_earned r
same_earned r = ground arith

same_redeemed : (r : PointReason) → same_reason r checkout_redeem ≡ is_redeemed r
same_redeemed r = ground arith

-- The reversal of an order: one user's balance has moved by what the order's own ledger rows of its
-- checkout redeemed minus what they earned, no other balance has moved, and every balance is still
-- the sum of its ledger, as it is assumed to be before.
pub reverse_order_tx-Moves :
    (lock : BalanceLock) (order : Uuid) (now : Instant) (db : Db) {u : Unit} {db' : Db}
    → IsFlow (flow_of order db)
    → IsSettled db
    → reverse_order_tx lock order now db ≡ committed u db'
    → Moves lock.user_id ((flow_of order db).redeemed -ℤ (flow_of order db).earned) db db'
      × IsSettled db'
unfolding reverse_order_tx find_order_flow_sums_tx
reverse_order_tx-Moves lock order now db {u} {db'} h settled e =
    let (flow, db₁, read, e₁) = query-then _ _ _ db e in
    let same : db₁ ≡ db = cc in
    let earned = order_sum-total is_earned checkout_earn order db.point_ledger same_earned in
    let spent = order_sum-total is_redeemed checkout_redeem order db.point_ledger same_redeemed in
    let is : flow ≡ flow_of order db = rw (← earned, ← spent) (cc read) in
    let lds = reversal_deltas (flow_of order db) order in
    let run : apply_deltas_tx lock lds now db ≡ committed u db' = rw (← is, ← same) e₁ in
    let moved = apply_deltas_tx-Moves lock lds now db run in
    (
      rw (← (reversal_deltas_signed (flow_of order db) order h).1) moved,
      apply_deltas_tx-IsSettled lock lds now db settled run,
    )

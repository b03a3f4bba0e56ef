-- ===== src/Tests/Points.antt =====
-- Ledger writes at concrete inputs.
use dream_fly_backend.Prelude.{
  ◌≡◌, refl, ◌+ℤ◌, ◌-ℤ◌, pos, negsuc, some, arith, All, Bool-cases, inl, inr, ◌==◌, ℤ, none, ◌⊎◌,
  ◌≢◌, [], ◌∷◌, ◌≤ℤ◌, ◌<ℤ◌, neg_ℤ, InI64,
}
use dream_fly_backend.AppError.{
  Result, ok, err, not_found, conflict, validation, plain, format, int,
}
use dream_fly_backend.Db.{Db, TxOut, committed, kept, rolled_back}
use dream_fly_backend.Points.Model.{
  PointReason, LedgerDelta, checkout_earn, checkout_redeem, OrderPointsFlow, reversal_deltas,
}
use dream_fly_backend.Points.Model.Signs.{sum_deltas, reversal_deltas_signed, IsOrderDelta}
use dream_fly_backend.Points.Repository.{find_balance}
use dream_fly_backend.Points.Service.{
  BalanceLock, AdjustPointsRequest, adjust_points, try_spend_tx, apply_delta_tx, reverse_order_tx,
}
use dream_fly_backend.Points.Service.Batches.{reverse_order_tx-Moves, flow_of, Moves}
use dream_fly_backend.Points.Service.Ledger.{IsSettled, apply_delta_tx-IsSettled}
use dream_fly_backend.Points.Service.Spending.{
  adjust_points-Outcome, try_spend_tx-Outcome, Change, IsEntered,
}
use dream_fly_backend.Tests.{shop, noon}
use dream_fly_backend.Tests.Opened.{opened}

abbrev lock : BalanceLock
lock = record { user_id = 1; balance = pos 1_000 }

abbrev earn : LedgerDelta
earn = record { delta = pos 50; reason = checkout_earn; order_id = some 7 }

abbrev redeem : LedgerDelta
redeem = record { delta = negsuc 9; reason = checkout_redeem; order_id = some 7 }

abbrev flow : OrderPointsFlow
flow = record { earned = pos 50; redeemed = pos 10 }

pub shop-IsSettled : IsSettled shop
unfolding find_balance ◌+ℤ◌
shop-IsSettled id balance e = elim (Bool-cases (1 == id)) [
  | inl mine ↦ rw mine (ground (arith, rw mine at e))
  | inr other ↦ absurd (ground (arith, rw other at e))
]

abbrev request : AdjustPointsRequest
request = record { user_id = 1; delta = negsuc 99; expected_balance = pos 1_000 }

adjust_points-Outcome_example :
    ((find_balance 1 shop ≡ none)
      × (adjust_points request noon shop ≡ (err (not_found (plain "user not found")), shop)))
    ⊎ ((b : ℤ) × (find_balance 1 shop ≡ some b)
        × (((b ≢ pos 1_000)
              × (adjust_points request noon shop ≡ (
                err (
                    conflict (
                      format "balance mismatch: expected {}, actual {}"
                        (int (pos 1_000) ∷ int b ∷ []))),
                shop,
              )))
            ⊎ ((b ≡ pos 1_000)
                × Change 1
                    (negsuc 99)
                    PointReason.admin_adjust
                    noon
                    b
                    shop
                    (adjust_points request noon shop))))
adjust_points-Outcome_example = adjust_points-Outcome request noon shop

abbrev spending : Result ℤ × Db
spending = kept shop (try_spend_tx 1 (pos 300) noon shop)

balance-InI64 : (b : ℤ) → find_balance 1 shop ≡ some b → InI64 b
unfolding find_balance
balance-InI64 b e = ground (arith, e)

try_spend_tx-Outcome_example :
    ((pos 300 ≤ℤ pos 0) × (spending ≡ (err (validation (plain "cost must be positive")), shop)))
    ⊎ ((pos 0 <ℤ pos 300)
        × (((find_balance 1 shop ≡ none)
              × (spending ≡ (err (not_found (plain "user not found")), shop)))
            ⊎ ((b : ℤ) × (find_balance 1 shop ≡ some b)
                × (((b <ℤ pos 300) × (spending ≡ (err (conflict (plain "點數不足")), shop)))
                    ⊎ ((pos 300 ≤ℤ b)
                        × ((db' : Db) × (spending ≡ (ok (b -ℤ pos 300), db'))
                            × IsEntered 1 (neg_ℤ (pos 300)) PointReason.redeem noon b shop db'))))))
try_spend_tx-Outcome_example =
    try_spend_tx-Outcome 1 (pos 300) noon shop (ground arith) balance-InI64

abbrev after_tx : {A : Type 0} → TxOut A → Db
after_tx (committed a db) = db
after_tx (rolled_back e) = shop

abbrev earned : Db
earned = after_tx (apply_delta_tx lock earn noon shop)

earned-IsSettled : IsSettled earned
unfolding opened
earned-IsSettled = apply_delta_tx-IsSettled lock earn noon shop {b = pos 1_050} shop-IsSettled refl

abbrev reversed : Db
reversed = after_tx (reverse_order_tx lock 7 noon earned)

reverse_order_tx-Moves_example :
    Moves 1 ((flow_of 7 earned).redeemed -ℤ (flow_of 7 earned).earned) earned reversed
    × IsSettled reversed
unfolding opened
reverse_order_tx-Moves_example =
    reverse_order_tx-Moves lock 7 noon earned {u = tt}
      (record {
        earned_ge = ground arith;
        earned_lt = ground arith;
        redeemed_ge = ground arith;
        redeemed_lt = ground arith;
      })
      earned-IsSettled refl

reversal_deltas_signed_example :
    All (IsOrderDelta 7) (reversal_deltas flow 7)
    × (sum_deltas (reversal_deltas flow 7) ≡ pos 10 -ℤ pos 50)
reversal_deltas_signed_example = reversal_deltas_signed flow 7 (record {
  earned_ge = ground arith;
  earned_lt = ground arith;
  redeemed_ge = ground arith;
  redeemed_lt = ground arith;
})

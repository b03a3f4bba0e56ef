-- ===== src/Points/Service/Outcomes.antt =====
-- Spending and adjusting points on all their branches.
use dream_fly_backend.Prelude.{
  ◌≡◌, refl, sym, ℤ, pos, leb_ℤ, eqb_ℤ, ltb_ℤ, false, Option, none, some, List, [], ◌∷◌, any, ◌∙◌,
  if◌then◌else◌, Option-cases, Bool-cases, inl, inr,
}
use dream_fly_backend.Base.{Instant, Uuid}
use dream_fly_backend.AppError.{not_found, conflict, validation, plain, format, int}
use dream_fly_backend.Db.{
  Db, TxOut, rolled_back, reject_if-run, reject_if-stop, >>=-run, >>=-stop, transaction-kept, kept,
}
use dream_fly_backend.Points.Model.{LedgerRow, PointReason, delta_admin_adjust, delta_redeem}
use dream_fly_backend.Points.Repository.{find_balance, is_once}
use dream_fly_backend.Points.Service.{try_spend_tx, AdjustPointsRequest, adjust_points}
use dream_fly_backend.Points.Service.Adjust.{
  applied, apply_delta_tx-eq, lock_of, lock_balance_tx-runs, lock_balance_tx-stops,
}

pub never_once :
    (reason : PointReason) (rows : List LedgerRow) → any (is_once none reason) rows ≡ false
never_once reason [] = refl
never_once reason (row ∷ rows) = never_once reason rows

-- What spending does at a balance, or without the row.
abbrev pub spent : Uuid → ℤ → Instant → Db → Option ℤ → TxOut ℤ
spent user cost now db none = rolled_back (not_found (plain "user not found"))
spent user cost now db (some b) =
    if ltb_ℤ b cost
    then rolled_back (conflict (plain "點數不足"))
    else applied (lock_of user b) (delta_redeem cost) now db b

pub try_spend_tx-eq :
    (user : Uuid) (cost : ℤ) (now : Instant) (db : Db)
    → try_spend_tx user cost now db ≡ (
        if leb_ℤ cost (pos 0)
        then rolled_back (validation (plain "cost must be positive"))
        else spent user cost now db (find_balance user db))
unfolding try_spend_tx delta_redeem
try_spend_tx-eq user cost now db = elim (Bool-cases (leb_ℤ cost (pos 0))) [
  | inl free ↦ reject_if-stop _ _ _ _ free ∙ sym (rw free refl)
  | inr costs ↦ elim (Option-cases (find_balance user db)) [
    | inl missing ↦
        reject_if-run _ _ _ _ costs
        ∙ >>=-stop _ _ _ (lock_balance_tx-stops user db missing)
        ∙ sym (rw (costs, missing) refl)
    | inr (b, found) ↦ elim (Bool-cases (ltb_ℤ b cost)) [
      | inl poor ↦
          reject_if-run _ _ _ _ costs
          ∙ >>=-run _ _ _ (lock_balance_tx-runs user db found)
          ∙ reject_if-stop _ _ _ _ poor
          ∙ sym (rw (costs, found, poor) refl)
      | inr rich ↦
          reject_if-run _ _ _ _ costs
          ∙ >>=-run _ _ _ (lock_balance_tx-runs user db found)
          ∙ reject_if-run _ _ _ _ rich
          ∙ apply_delta_tx-eq (lock_of user b) (delta_redeem cost) now db found
              (never_once PointReason.redeem db.point_ledger)
          ∙ sym (rw (costs, found, rich) refl)
    ]
  ]
]

-- What an adjustment does at a balance, or without the row.
abbrev pub adjusted : AdjustPointsRequest → Instant → Db → Option ℤ → TxOut ℤ
adjusted req now db none = rolled_back (not_found (plain "user not found"))
adjusted req now db (some b) =
    if eqb_ℤ b req.expected_balance
    then applied (lock_of req.user_id b) (delta_admin_adjust req.delta) now db b
    else rolled_back (
        conflict (
          format "balance mismatch: expected {}, actual {}"
            (int req.expected_balance ∷ int b ∷ [])))

pub adjust_points-eq :
    (req : AdjustPointsRequest) (now : Instant) (db : Db)
    → adjust_points req now db ≡ kept db (adjusted req now db (find_balance req.user_id db))
unfolding adjust_points delta_admin_adjust
adjust_points-eq req now db =
    transaction-kept _ _ _ (elim (Option-cases (find_balance req.user_id db)) [
      | inl missing ↦
          >>=-stop _ _ _ (lock_balance_tx-stops req.user_id db missing) ∙ sym (rw missing refl)
      | inr (b, found) ↦ elim (Bool-cases (eqb_ℤ b req.expected_balance)) [
        | inl same ↦
            >>=-run _ _ _ (lock_balance_tx-runs req.user_id db found)
            ∙ reject_if-run _ _ _ _ (rw same refl)
            ∙ apply_delta_tx-eq (lock_of req.user_id b) (delta_admin_adjust req.delta) now db found
                (never_once PointReason.admin_adjust db.point_ledger)
            ∙ sym (rw (found, same) refl)
        | inr differs ↦
            >>=-run _ _ _ (lock_balance_tx-runs req.user_id db found)
            ∙ reject_if-stop _ _ _ _ (rw differs refl)
            ∙ sym (rw (found, differs) refl)
      ]
    ])

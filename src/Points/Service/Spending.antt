-- ===== src/Points/Service/Spending.antt =====
-- What spending and adjusting points do to the balances and to the ledger.
use dream_fly_backend.Prelude.{
  ◌≡◌, ◌≢◌, ◌⊎◌, refl, ap, ◌∙◌, ℤ, pos, negsuc, ◌+ℤ◌, ◌-ℤ◌, neg_ℤ, neg_ℤ_parts, -ℤ_parts, ◌≤ℤ◌,
  ◌<ℤ◌, leb_ℤ, ltb_ℤ, eqb_ℤ, none, some, [], ◌∷◌, arith, int_laws, ◌==◌, if◌then◌else◌, InI64,
  i64_half, check_word, check_word-in, check_word-some, wrap_i64_id, eq_of_parts, Bool-cases,
  Option-cases, inl, inr,
}
use dream_fly_backend.Base.{Uuid, Instant}
use dream_fly_backend.AppError.{
  Result, ok, err, not_found, conflict, validation, database_error, plain, format, int, database,
  other_state,
}
use dream_fly_backend.Db.{Db, Same, but_points, committed, kept}
use dream_fly_backend.Points.Model.{PointReason, LedgerDelta, delta_redeem, delta_admin_adjust}
use dream_fly_backend.Points.Repository.{find_balance}
use dream_fly_backend.Points.Service.{
  try_spend_tx, AdjustPointsRequest, adjust_points, apply_delta_tx,
}
use dream_fly_backend.Points.Service.Adjust.{applied, apply_delta_tx-eq, lock_of}
use dream_fly_backend.Points.Service.Ledger.{apply_delta_tx-IsApplied}
use dream_fly_backend.Points.Service.Runs.{after_delta}
use dream_fly_backend.Points.Service.Outcomes.{try_spend_tx-eq, adjust_points-eq, never_once}

-- One balance has moved by a change, and one ledger row of that change is written; nothing else is.
pub record IsEntered (user : Uuid) (change : ℤ) (reason : PointReason) (now : Instant) (old : ℤ)
    (db db' : Db) : Type 0 where
  pub balances :
      (j : Uuid)
      → find_balance j db' ≡ (if user == j then some (old +ℤ change) else find_balance j db)
  pub ledger :
      db'.point_ledger
      ≡ record {
        user_id = user;
        delta = change;
        reason = reason;
        order_id = none;
        created_at = now;
      }
        ∷ db.point_ledger
  pub rest : Same but_points db db'

-- The outcome of a change of a balance: refused if it is zero, if the sum is not an `i64`, and if the
-- sum is negative, each with the database as it was; and otherwise entered.
abbrev pub Change : Uuid → ℤ → PointReason → Instant → ℤ → Db → Result ℤ × Db → Type 0
Change user change reason now old db r =
    ((change ≡ pos 0) × (r ≡ (err (validation (plain "delta must be non-zero")), db)))
    ⊎ (((InI64 (old +ℤ change) → ⊥) × (r ≡ (err (database_error (database other_state none)), db)))
        ⊎ (((old +ℤ change <ℤ pos 0) × (r ≡ (err (conflict (plain "點數不足")), db)))
            ⊎ ((change ≢ pos 0)
                × (pos 0 ≤ℤ old +ℤ change)
                × ((db' : Db) × (r ≡ (ok (old +ℤ change), db'))
                    × IsEntered user change reason now old db db'))))

abbrev delta_of : ℤ → PointReason → LedgerDelta
delta_of change reason = record { delta = change; reason = reason; order_id = none }

entered :
    (user : Uuid) (change : ℤ) (reason : PointReason) (now : Instant) (old : ℤ) (db : Db) {new : ℤ}
    {db' : Db}
    → find_balance user db ≡ some old
    → apply_delta_tx (lock_of user old) (delta_of change reason) now db ≡ committed new db'
    → (new ≡ old +ℤ change) × IsEntered user change reason now old db db'
entered user change reason now old db {new} {db'} found e =
    let it = apply_delta_tx-IsApplied (lock_of user old) (delta_of change reason) now db e in
    let same : it.old ≡ old = (let f = it.found in cc (f, found)) in
    let sum : new ≡ old +ℤ change = it.sum ∙ ap (λ (z : ℤ). z +ℤ change) same in
    (
      sum,
      record {
        balances = (λ j. rw (← sum) (it.balances j));
        ledger = ap (λ (d : Db). d.point_ledger) it.state;
        rest = ap but_points it.state;
      },
    )

applied-Change :
    (user : Uuid) (change : ℤ) (reason : PointReason) (now : Instant) (old : ℤ) (db : Db)
    → find_balance user db ≡ some old
    → Change user change reason now old db
        (kept db (applied (lock_of user old) (delta_of change reason) now db old))
applied-Change user change reason now old db found = elim (Bool-cases (eqb_ℤ change (pos 0))) [
  | inl zero ↦ inl (eq_of_parts _ _ (ground (arith, zero)), rw zero refl)
  | inr nonzero ↦ elim (Option-cases (check_word i64_half (old +ℤ change))) [
    | inl out ↦ inr (
        inl (
          λ inside. (let e = check_word-in i64_half (old +ℤ change) inside in cc (e, out)),
          rw (nonzero, out) refl,
        ))
    | inr (new, fits) ↦
        let (sum, inside) = check_word-some i64_half (old +ℤ change) fits in
        elim (Bool-cases (ltb_ℤ new (pos 0))) [
          | inl below ↦
              inr (inr (inl (rw (← sum) (ground (arith, below)), rw (nonzero, fits, below) refl)))
          | inr above ↦
              let after = after_delta (lock_of user old) (delta_of change reason) now new db in
              let run : applied (lock_of user old) (delta_of change reason) now db old
                  ≡ committed new after =
                rw (nonzero, fits, above) refl in
              let ran =
                apply_delta_tx-eq (lock_of user old) (delta_of change reason) now db found
                  (never_once reason db.point_ledger)
                ∙ run in
              inr (
                inr (
                  inr (
                    (λ z. ground (arith, nonzero, z)),
                    rw (← sum) (ground (arith, above)),
                    (
                      after,
                      ap (kept db) run ∙ ap (λ (z : ℤ). (ok z, after)) sum,
                      (entered user change reason now old db found ran).1,
                    ),
                  )))
        ]
  ]
]

-- An administrator's adjustment, on every branch: a missing user and a balance other than the
-- expected one give their error; so do a zero change, a sum that is not an `i64` and a negative sum,
-- all with the database as it was; otherwise the balance moves by exactly the requested change, one
-- ledger row of that change is written, and nothing else is.
pub adjust_points-Outcome :
    (req : AdjustPointsRequest) (now : Instant) (db : Db)
    → ((find_balance req.user_id db ≡ none)
        × (adjust_points req now db ≡ (err (not_found (plain "user not found")), db)))
      ⊎ ((b : ℤ) × (find_balance req.user_id db ≡ some b)
          × (((b ≢ req.expected_balance)
                × (adjust_points req now db ≡ (
                  err (
                      conflict (
                        format "balance mismatch: expected {}, actual {}"
                          (int req.expected_balance ∷ int b ∷ []))),
                  db,
                )))
              ⊎ ((b ≡ req.expected_balance)
                  × Change req.user_id req.delta PointReason.admin_adjust now b db
                      (adjust_points req now db))))
unfolding delta_admin_adjust
adjust_points-Outcome req now db =
    rw (adjust_points-eq req now db) (elim (Option-cases (find_balance req.user_id db)) [
      | inl missing ↦ inl (missing, rw missing refl)
      | inr (b, found) ↦ inr (
        b,
        found,
        elim (Bool-cases (eqb_ℤ b req.expected_balance)) [
          | inl same ↦ inr (
            eq_of_parts _ _ (ground (arith, same)),
            rw (found, same)
                (applied-Change req.user_id req.delta PointReason.admin_adjust now b db found),
          )
          | inr differs ↦ inl ((λ e. ground (arith, e, differs)), rw (found, differs) refl)
        ],
      )
    ])

neg-InI64 : (cost : ℤ) → pos 0 <ℤ cost → InI64 cost → InI64 (neg_ℤ cost)
unfolding neg_ℤ
neg-InI64 (pos n) h i = ground (arith, h, i)
neg-InI64 (negsuc n) h i = absurd (ground (arith, h))

less : (b cost : ℤ) → b +ℤ neg_ℤ cost ≡ b -ℤ cost
less b cost = omega int_laws

fits_after : (b cost : ℤ) → pos 0 <ℤ cost → cost ≤ℤ b → InI64 b → InI64 (b +ℤ neg_ℤ cost)
unfolding ◌+ℤ◌ neg_ℤ
fits_after (pos m) (pos n) h le i = ground (arith, h, le, i)
fits_after (negsuc m) (pos n) h le i = absurd (ground (arith, le))
fits_after b (negsuc n) h le i = absurd (ground (arith, h))

-- The last branch of a change is the only one that a payable cost leaves.
spent_of :
    (user : Uuid) (cost : ℤ) (now : Instant) (b : ℤ) (db : Db) (r : Result ℤ × Db)
    → pos 0 <ℤ cost
    → cost ≤ℤ b
    → InI64 b
    → Change user (neg_ℤ cost) PointReason.redeem now b db r
    → (db' : Db) × (r ≡ (ok (b -ℤ cost), db'))
      × IsEntered user (neg_ℤ cost) PointReason.redeem now b db db'
spent_of user cost now b db r costs rich small (inl (zero, e)) =
    absurd (ground (arith, costs, neg_ℤ_parts cost, zero))
spent_of user cost now b db r costs rich small (inr (inl (out, e))) =
    absurd (out (fits_after b cost costs rich small))
spent_of user cost now b db r costs rich small (inr (inr (inl (below, e)))) =
    absurd (ground (arith, rw (less b cost) at below, -ℤ_parts b cost, rich))
spent_of user cost now b db r costs rich small (inr (inr (inr (nonzero, above, (db', e, it))))) =
    (db', e ∙ ap (λ (z : ℤ). (ok z, db')) (less b cost), it)

-- Spending points, on every branch, for a cost and a balance that are `i64`: a cost that is not
-- positive, a missing user and a balance below the cost give their error, with the database as it
-- was; otherwise the balance is less by exactly the cost, one ledger row of minus the cost is written,
-- and nothing else is.
pub try_spend_tx-Outcome :
    (user : Uuid) (cost : ℤ) (now : Instant) (db : Db)
    → InI64 cost
    → ((b : ℤ) → find_balance user db ≡ some b → InI64 b)
    → let r = kept db (try_spend_tx user cost now db) in
      ((cost ≤ℤ pos 0) × (r ≡ (err (validation (plain "cost must be positive")), db)))
      ⊎ ((pos 0 <ℤ cost)
          × (((find_balance user db ≡ none) × (r ≡ (err (not_found (plain "user not found")), db)))
              ⊎ ((b : ℤ) × (find_balance user db ≡ some b)
                  × (((b <ℤ cost) × (r ≡ (err (conflict (plain "點數不足")), db)))
                      ⊎ ((cost ≤ℤ b)
                          × ((db' : Db) × (r ≡ (ok (b -ℤ cost), db'))
                              × IsEntered user (neg_ℤ cost) PointReason.redeem now b db db'))))))
unfolding delta_redeem
try_spend_tx-Outcome user cost now db small small_b =
    rw (try_spend_tx-eq user cost now db) (elim (Bool-cases (leb_ℤ cost (pos 0))) [
      | inl free ↦ inl (ground (arith, free), rw free refl)
      | inr costs ↦ inr (
        ground (arith, costs),
        elim (Option-cases (find_balance user db)) [
          | inl missing ↦ inl (missing, rw (costs, missing) refl)
          | inr (b, found) ↦ inr (
            b,
            found,
            elim (Bool-cases (ltb_ℤ b cost)) [
              | inl poor ↦ inl (ground (arith, poor), rw (costs, found, poor) refl)
              | inr rich ↦ inr (
                ground (arith, rich),
                spent_of user cost now b db _ (ground (arith, costs)) (ground (arith, rich))
                    (small_b b found)
                    (rw
                      (
                        costs,
                        found,
                        rich,
                        wrap_i64_id (neg_ℤ cost) (neg-InI64 cost (ground (arith, costs)) small),
                      )
                      (applied-Change user (neg_ℤ cost) PointReason.redeem now b db found)),
              )
            ],
          )
        ],
      )
    ])

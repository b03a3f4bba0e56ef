-- ===== src/Subscriptions/Sessions.antt =====
-- The sessions that a purchase grants, and what redeeming takes.
use dream_fly_backend.Prelude.{
  ℕ, zero, suc, ap, ◌∙◌, negsuc, ltb_ℤ, false, ◌+◌, ◌*◌, ◌≢◌, ◌⊎◌, ◌<ℤ◌, ◌<◌, ◌≡◌, refl, ℤ, pos,
  ◌*ℤ◌, ◌-ℤ◌, ◌≤ℤ◌, true, ◌&&◌, Option, none, some, List, [], ◌∷◌, arith, i32_half, wrap_i32,
  wrap_i32_id, mul_pos, find, if◌then◌else◌, ◌==◌, Bool-cases, Option-cases, ==_iff, inl, inr,
}
use dream_fly_backend.Base.{Uuid, Instant}
use dream_fly_backend.Products.Model.{Product, is_entitlement}
use dream_fly_backend.Subscriptions.Entitlement.{EntitlementGrant, plan}
use dream_fly_backend.Subscriptions.Model.{Subscription, cancelled, derived_status}
use dream_fly_backend.Subscriptions.Repository.{
  redeem_row, is_redeemable, is_subscription, redeemed, is_cancelled,
}

-- What an entitlement of `n` sessions a unit grants in all for `q` units, as long as the product is
-- an `i32`: exactly `n * q` sessions, all of them left.
pub plan_sessions :
    (p : Product) (n q : ℕ) (now : Instant) {g : EntitlementGrant}
    → p.session_count ≡ some (pos n)
    → n * q < i32_half
    → plan p (pos q) now ≡ some g
    → (g.total_sessions ≡ some (pos (n * q))) × (g.remaining_sessions ≡ some (pos (n * q)))
unfolding plan
plan_sessions p n q now {g} counted fits e =
    let total : wrap_i32 (pos n *ℤ pos q) ≡ pos (n * q) =
      rw (mul_pos n q) (wrap_i32_id (pos (n * q)) (omega arith, omega arith)) in
    elim (Bool-cases (is_entitlement p.product_type)) [
      | inl on ↦ let e' = rw (on, counted, total) at e in (cc e', cc e')
      | inr off ↦ absurd (ground (arith, off))
    ]

abbrev pub redeem_once : Instant → Option Subscription → Option Subscription
redeem_once clock none = none
redeem_once clock (some s) = some (if is_redeemable clock s then redeemed s else s)

-- Redeeming touches the addressed row only.
redeem_row-once :
    (clock : Instant) (id j : Uuid) (ss : List Subscription)
    → find (is_subscription j) (redeem_row clock id ss) ≡ (
        if id == j
        then redeem_once clock (find (is_subscription j) ss)
        else find (is_subscription j) ss)
unfolding redeem_row
redeem_row-once clock id j [] = ground arith
redeem_row-once clock id j (s ∷ ss) =
    let rest = redeem_row-once clock id j ss in
    elim (Bool-cases (is_subscription id s && is_redeemable clock s)) [
      | inl hit ↦ elim (Bool-cases (s.id == j)) [
        | inl mine ↦
            let same : s.id ≡ j = (==_iff s.id j).0 mine in
            rw (hit, mine) (ground (arith, same, hit))
        | inr other ↦ rw (hit, other) (ground (arith, hit, other))
      ]
      | inr miss ↦ elim (Bool-cases (s.id == j)) [
        | inl mine ↦ elim (Bool-cases (is_redeemable clock s)) [
          | inl can ↦ rw (miss, mine) (ground (arith, can, miss, mine))
          | inr cannot ↦ rw (miss, mine) (rw cannot (ground arith))
        ]
        | inr other ↦ rw (miss, other) rest
      ]
    ]

-- What redeeming does to a subscription: a session less if it is not cancelled, has not expired and
-- has one left; and nothing if it is cancelled, has expired, or has no session left or no count.
abbrev pub Takes : Instant → Subscription → Subscription → Type 0
Takes clock s s' =
    ((s.status ≢ cancelled)
      × ((s.expires_at ≡ none) ⊎ ((t : Instant) × (s.expires_at ≡ some t) × (clock <ℤ t)))
      × ((n : ℕ) × (s.remaining_sessions ≡ some (pos (n + 1)))
          × (s' ≡ record s { remaining_sessions = some (pos n) })))
    ⊎ ((s' ≡ s)
        × ((s.status ≡ cancelled)
            ⊎ (((t : Instant) × (s.expires_at ≡ some t) × (t ≤ℤ clock))
                ⊎ ((s.remaining_sessions ≡ none)
                    ⊎ ((n : ℤ) × (s.remaining_sessions ≡ some n) × (n ≤ℤ pos 0))))))

minus-pos : (n : ℕ) → pos (n + 1) -ℤ pos 1 ≡ pos n
unfolding ◌-ℤ◌
minus-pos n = ground arith

positive : (n : ℤ) → ltb_ℤ (pos 0) n ≡ true → (m : ℕ) × (n ≡ pos (m + 1))
positive (pos zero) h = absurd (ground (arith, h))
positive (pos (suc m)) h = (m, ap pos (omega arith))
positive (negsuc m) h = absurd (ground (arith, h))

Takes-can :
    (clock : Instant) (s : Subscription) → is_redeemable clock s ≡ true → Takes clock s (redeemed s)
unfolding derived_status
Takes-can clock s can = elim (Option-cases s.remaining_sessions) [
  | inl without ↦ absurd (ground (arith, without, can))
  | inr (n, left) ↦
      let (m, is) = positive n (ground (arith, left, can)) in
      let left' : s.remaining_sessions ≡ some (pos (m + 1)) = left ∙ ap some is in
      let live : s.status ≢ cancelled = λ gone. ground (arith, gone, can) in
      let less : redeemed s ≡ record s { remaining_sessions = some (pos m) } =
        rw (left', minus-pos m) refl in
      elim (Option-cases s.expires_at) [
        | inl forever ↦ inl (live, inl forever, (m, left', less))
        | inr (t, until) ↦
            inl (live, inr (t, until, ground (arith, until, can, left)), (m, left', less))
      ]
]

Takes-cannot :
    (clock : Instant) (s : Subscription) → is_redeemable clock s ≡ false → Takes clock s s
unfolding derived_status
Takes-cannot clock s cannot = elim (Option-cases s.remaining_sessions) [
  | inl without ↦ inr (refl, inr (inr (inl without)))
  | inr (n, left) ↦ elim (Bool-cases (ltb_ℤ (pos 0) n)) [
    | inr out ↦ inr (refl, inr (inr (inr (n, left, ground (arith, out)))))
    | inl some_left ↦ elim (Bool-cases (is_cancelled s.status)) [
      | inl gone ↦ inr (refl, inl (ground (arith, gone)))
      | inr live ↦ elim (Option-cases s.expires_at) [
        | inl forever ↦ absurd (ground (arith, cannot, left, some_left, live, forever))
        | inr (t, until) ↦
            inr (refl, inr (inl (t, until, ground (arith, cannot, left, some_left, live, until))))
      ]
    ]
  ]
]

-- Redeeming touches the addressed subscription only, and takes one session of it if and only if it is
-- not cancelled, has not expired and has a session left.
pub redeem_row-find :
    (clock : Instant) (id : Uuid) (ss : List Subscription) (s : Subscription)
    → find (is_subscription id) ss ≡ some s
    → (s' : Subscription) × Takes clock s s'
      × ((j : Uuid)
          → find (is_subscription j) (redeem_row clock id ss)
            ≡ (if id == j then some s' else find (is_subscription j) ss))
redeem_row-find clock id ss s found = elim (Bool-cases (is_redeemable clock s)) [
  | inl can ↦ (redeemed s, Takes-can clock s can, λ j. (redeem_row-once clock id j ss) ∙ at j can)
  | inr cannot ↦
      (s, Takes-cannot clock s cannot, λ j. (redeem_row-once clock id j ss) ∙ stuck j cannot)
]
  where
    at :
        (j : Uuid)
        → is_redeemable clock s ≡ true
        → (if id == j
            then redeem_once clock (find (is_subscription j) ss)
            else find (is_subscription j) ss)
          ≡ (if id == j then some (redeemed s) else find (is_subscription j) ss)
    at j can = elim (Bool-cases (id == j)) [
      | inr other ↦ rw other refl
      | inl mine ↦
          let same : id ≡ j = (==_iff id j).0 mine in rw mine (rw (← same, found) (rw can refl))
    ]

    stuck :
        (j : Uuid)
        → is_redeemable clock s ≡ false
        → (if id == j
            then redeem_once clock (find (is_subscription j) ss)
            else find (is_subscription j) ss)
          ≡ (if id == j then some s else find (is_subscription j) ss)
    stuck j cannot = elim (Bool-cases (id == j)) [
      | inr other ↦ rw other refl
      | inl mine ↦
          let same : id ≡ j = (==_iff id j).0 mine in rw mine (rw (← same, found) (rw cannot refl))
    ]

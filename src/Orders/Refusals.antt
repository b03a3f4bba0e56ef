-- ===== src/Orders/Refusals.antt =====
-- src/modules/orders/service.rs: why a change of status is refused.
use dream_fly_backend.Prelude.{
  ◌≡◌, ◌≢◌, ◌⊎◌, refl, ap, sym, ◌∙◌, arith, String, true, false, Option, none, some, [], ◌∷◌, find,
  inl, inr, Option-cases,
}
use dream_fly_backend.Base.{Uuid, Instant}
use dream_fly_backend.AppError.{
  AppError, Result, ok, err, not_found, bad_request, plain, format, str,
}
use dream_fly_backend.Db.{
  Db, committed, rolled_back, TxOut-cases, query-run, some_or-run, some_or-stop, >>=-run, >>=-stop,
  >>=-committed, query-then, pure-state, lift, ◌>>=◌, Same-IsFrame, query-Respects, select-Respects,
  >>=-Respects, pure-Respects,
}
use dream_fly_backend.Enrolments.Frames.{cancel_by_order_tx-Seats}
use dream_fly_backend.Orders.Locks.{acquire_refund_locks}
use dream_fly_backend.Orders.Model.{Order, OrderStatus, status_str, can_transition_to, is_revenue}
use dream_fly_backend.Orders.Placing.{insert_domain_event_tx}
use dream_fly_backend.Orders.Refund.{
  TransitionDecision, no_op, flip, flip_and_compensate, decide_transition,
}
use dream_fly_backend.Orders.Refund.Life.{decide_transition-decides}
use dream_fly_backend.Orders.Replay.Later.{apply_deltas-SameOrders}
use dream_fly_backend.Orders.Repository.{is_order, find_by_id, with_status, update_status_tx}
use dream_fly_backend.Orders.Sound.Reads.{lock_balance-Respects, lock_products-Respects}
use dream_fly_backend.Orders.Status.{
  compensate_order_artifacts_tx, flip_tx, decided, update_status_body,
}
use dream_fly_backend.Points.Repository.{find_order_flow_sums_tx}
use dream_fly_backend.Points.Service.{reverse_order_tx}
use dream_fly_backend.Products.Repository.{find_stock_traces_by_order_tx}
use dream_fly_backend.Products.Service.{lock_restock_for_order_tx}
use dream_fly_backend.Products.Service.Stock.{restore_for_order_tx-Stocks}
use dream_fly_backend.Subscriptions.Service as SubscriptionCode
use dream_fly_backend.Subscriptions.Repository as SubscriptionRows

-- The order is missing, the transition is not allowed, or the compensation that it needs fails.
abbrev pub Stopped : Uuid → OrderStatus → Instant → Db → AppError → Type 0
Stopped id target now db e =
    ((find (is_order id) db.orders ≡ none) × (e ≡ not_found (plain "order not found")))
    ⊎ ((current : Order) × (find (is_order id) db.orders ≡ some current)
        × (((current.status ≢ target)
              × (can_transition_to current.status target ≡ false)
              × (e
                  ≡ bad_request (
                      format "cannot transition order from '{}' to '{}'"
                        (str (status_str current.status) ∷ str (status_str target) ∷ []))))
            ⊎ ((can_transition_to current.status target ≡ true)
                × (is_revenue current.status ≡ true)
                × (is_revenue target ≡ false)
                × (compensate_order_artifacts_tx current now db ≡ rolled_back e))))

decide_transition-err :
    (s t : OrderStatus) {x : AppError}
    → decide_transition s t ≡ err x
    → (s ≢ t)
      × (can_transition_to s t ≡ false)
      × (x
          ≡ bad_request (
              format "cannot transition order from '{}' to '{}'"
                (str (status_str s) ∷ str (status_str t) ∷ [])))
unfolding decide_transition is_revenue
decide_transition-err s t e = ground (arith, e)

compensate-SameOrders :
    (order : Order) (now : Instant) (db : Db) {u : Unit} {mid : Db}
    → compensate_order_artifacts_tx order now db ≡ committed u mid
    → mid.orders ≡ db.orders
unfolding compensate_order_artifacts_tx SubscriptionCode.cancel_by_order_tx
    SubscriptionRows.cancel_by_order_tx reverse_order_tx find_order_flow_sums_tx
    acquire_refund_locks lock_restock_for_order_tx find_stock_traces_by_order_tx
compensate-SameOrders order now db {u} {mid} e =
    let (locks, d₁, p₁, e₁) = >>=-committed _ _ db e in
    let (v, d₂, p₂, e₂) = >>=-committed _ _ d₁ e₁ in
    let (flow, d₂', q, p₂') = query-then _ _ _ d₁ p₂ in
    let (w, d₃, p₃, e₃) = >>=-committed _ _ d₂ e₂ in
    let (es, d₄, p₄, e₄) = >>=-committed _ _ d₃ e₃ in
    let (ss, d₅, p₅, e₅) = query-then _ _ _ d₄ e₄ in
    let (_, ended) = pure-state d₅ e₅ in
    let same₁ : d₁.orders ≡ db.orders =
      (let frame = Same-IsFrame (λ (d : Db). d.orders) in
        >>=-Respects frame (lock_balance-Respects frame order.user_id)
          (λ balance.
            >>=-Respects frame
              (>>=-Respects frame (query-Respects frame _ _ (select-Respects frame _)) λ traces.
                >>=-Respects frame (lock_products-Respects frame _) λ locks. pure-Respects frame _)
              λ restock. pure-Respects frame _)
          db locks d₁ p₁) in
    let same₂ : d₂.orders ≡ d₂'.orders = apply_deltas-SameOrders locks.balance _ now d₂' v d₂ p₂' in
    let read : d₂' ≡ d₁ = cc q in
    let same₃ : d₃.orders ≡ d₂.orders =
      ap (λ (d : Db). d.orders) (restore_for_order_tx-Stocks _ d₂ w d₃ p₃).0 in
    let same₄ : d₄.orders ≡ d₃.orders =
      ap (λ (d : Db). d.orders) (cancel_by_order_tx-Seats order.id d₃ es d₄ p₄).0 in
    let same₅ : d₅.orders ≡ d₄.orders = cc p₅ in
    ap (λ (d : Db). d.orders) ended
    ∙ same₅
    ∙ same₄
    ∙ same₃
    ∙ same₂
    ∙ ap (λ (d : Db). d.orders) read
    ∙ same₁

flip_tx-run :
    (id : Uuid) (target : OrderStatus) (correlation : Option String) (mid : Db) {row : Order}
    {e : AppError}
    → find (is_order id) mid.orders ≡ some row
    → flip_tx id target correlation mid ≡ rolled_back e
    → ⊥
unfolding update_status_tx insert_domain_event_tx
flip_tx-run id target correlation mid found stopped =
    let run =
      query-run _ _ _ mid refl
      ∙ some_or-run _ _ _ _ (ap (with_status target) found)
      ∙ query-run _ _ _ _ refl in
    let never = sym run ∙ stopped in ground (arith, never)

decided-Stopped :
    (id : Uuid) (target : OrderStatus) (correlation : Option String) (now : Instant) (db : Db)
    (current : Order) (d : Result TransitionDecision) {e : AppError}
    → find (is_order id) db.orders ≡ some current
    → decide_transition current.status target ≡ d
    → (lift d >>= decided id current target correlation now) db ≡ rolled_back e
    → Stopped id target now db e
unfolding lift ◌>>=◌
decided-Stopped id target correlation now db current (err x) {e} found is h =
    let (differs, never, message) = decide_transition-err current.status target is in
    let same : e ≡ x = cc h in inr (current, found, inl (differs, never, same ∙ message))
decided-Stopped id target correlation now db current (ok no_op) found is h =
    absurd (ground (arith, h))
decided-Stopped id target correlation now db current (ok flip) found is h =
    absurd (flip_tx-run id target correlation db found h)
decided-Stopped id target correlation now db current (ok flip_and_compensate) {e} found is h =
    let (allowed, was, loses) = (decide_transition-decides current.status target).2.0 is in
    elim (TxOut-cases (compensate_order_artifacts_tx current now db)) [
      | inr (x, undone) ↦
          let same : rolled_back x ≡ rolled_back e =
            sym (
              >>=-stop (compensate_order_artifacts_tx current now)
                (λ u. flip_tx id target correlation) db undone)
            ∙ h in
          let is : x ≡ e = cc same in
          inr (current, found, inr (allowed, was, loses, undone ∙ ap rolled_back is))
      | inl (u, mid, undone) ↦
          let listed =
            ap (find (is_order id)) (compensate-SameOrders current now db undone) ∙ found in
          absurd (
            flip_tx-run id target correlation mid listed (
              sym (
                >>=-run (compensate_order_artifacts_tx current now)
                  (λ u. flip_tx id target correlation) db undone)
              ∙ h))
    ]

pub update_status_body-Stopped :
    (id : Uuid) (target : OrderStatus) (correlation : Option String) (now : Instant) (db : Db)
    {e : AppError}
    → update_status_body id target correlation now db ≡ rolled_back e
    → Stopped id target now db e
unfolding update_status_body find_by_id
update_status_body-Stopped id target correlation now db {e} h =
    let looked = sym (query-run _ _ _ db refl) ∙ h in
    elim (Option-cases (find (is_order id) db.orders)) [
      | inl missing ↦
          let same : rolled_back (not_found (plain "order not found")) ≡ rolled_back e =
            sym (some_or-stop _ _ _ db missing) ∙ looked in
          inl (missing, cc same)
      | inr (current, found) ↦
          decided-Stopped id target correlation now db current _ found refl
            (sym (some_or-run _ _ _ db found) ∙ looked)
    ]

-- ===== src/Orders/Effects.antt =====
-- What a refund takes back of an order: its enrolments and its subscriptions.
use dream_fly_backend.Prelude.{
  ℕ, ◌≡◌, refl, Bool, true, false, ◌&&◌, ◌==◌, none, some, List, [], ◌∷◌, any, arith, Bool-cases,
  inl, inr,
}
use dream_fly_backend.Base.{Uuid, Instant}
use dream_fly_backend.Db.{Db, committed, query-then, >>=-committed, query_or-committed}
use dream_fly_backend.Enrolments.Model.{Enrolment, EnrolmentStatus}
use dream_fly_backend.Enrolments.Repository as EnrolmentRows
use dream_fly_backend.Enrolments.Service as EnrolmentCode
use dream_fly_backend.Leave.Repository.{cancel_pending_for_enrolments_tx}
use dream_fly_backend.Orders.Model.{Order}
use dream_fly_backend.Orders.Status.{compensate_order_artifacts_tx}
use dream_fly_backend.Subscriptions.Model.{Subscription, SubscriptionStatus}
use dream_fly_backend.Subscriptions.Repository as SubscriptionRows
use dream_fly_backend.Subscriptions.Service as SubscriptionCode

-- An enrolment of the order that is active, and a subscription of it that is not cancelled.
abbrev pub still_enrolled : Uuid → Enrolment → Bool
still_enrolled order e = elim e.order_id [
  | none ↦ false
  | some o ↦
      (o == order)
      && (elim e.status [ EnrolmentStatus.active ↦ true | EnrolmentStatus.cancelled ↦ false ])
]

abbrev pub still_granted : Uuid → Subscription → Bool
still_granted order s = elim s.order_id [
  | none ↦ false
  | some o ↦ (o == order) && (elim s.status [
    | SubscriptionStatus.active ↦ true
    | SubscriptionStatus.expired ↦ true
    | SubscriptionStatus.cancelled ↦ false
  ])
]

cancel_where-any :
    (order : Uuid) (es : List Enrolment)
    → any (still_enrolled order) (EnrolmentRows.cancel_where (EnrolmentRows.is_open_of order) es)
      ≡ false
unfolding EnrolmentRows.cancel_where
cancel_where-any order [] = refl
cancel_where-any order (e ∷ es) = elim (Bool-cases (EnrolmentRows.is_open_of order e)) [
  | inl hit ↦ rw hit (ground (arith, cancel_where-any order es))
  | inr miss ↦ rw miss (ground (arith, miss, cancel_where-any order es))
]

cancel_subscriptions-any :
    (order : Uuid) (ss : List Subscription)
    → any
        (still_granted order)
        (SubscriptionRows.cancel_subscriptions (SubscriptionRows.is_open_of order) ss)
      ≡ false
unfolding SubscriptionRows.cancel_subscriptions
cancel_subscriptions-any order [] = refl
cancel_subscriptions-any order (s ∷ ss) = elim (Bool-cases (SubscriptionRows.is_open_of order s)) [
  | inl hit ↦ rw hit (ground (arith, cancel_subscriptions-any order ss))
  | inr miss ↦ rw miss (ground (arith, miss, cancel_subscriptions-any order ss))
]

leaves-enrolments :
    (ids : List Uuid) (db : Db) {u : Unit} {db' : Db}
    → EnrolmentCode.cancel_leaves_of ids db ≡ committed u db'
    → db'.enrolments ≡ db.enrolments
unfolding cancel_pending_for_enrolments_tx
leaves-enrolments [] db {u} {db'} e = let same : db' ≡ db = cc in rw same refl
leaves-enrolments (id ∷ ids) db {u} {db'} e =
    let (n, db₁, e₁, e₂) = query-then _ _ _ db e in ground (arith, e₁, e₂)

enrolments_cancelled :
    (order : Uuid) (db : Db) {n : ℕ} {db' : Db}
    → EnrolmentCode.cancel_by_order_tx order db ≡ committed n db'
    → any (still_enrolled order) db'.enrolments ≡ false
unfolding EnrolmentCode.cancel_by_order_tx EnrolmentRows.cancel_by_order_tx
enrolments_cancelled order db {n} {db'} e =
    let (ids, db₁, e₁, e₂) = query-then _ _ _ db e in
    let (u, db₂, e₃, e₄) = >>=-committed _ _ db₁ e₂ in
    let same : db' ≡ db₂ = cc in
    let first : db₁.enrolments
        ≡ EnrolmentRows.cancel_where (EnrolmentRows.is_open_of order) db.enrolments =
      ground (arith, e₁) in
    rw (same, leaves-enrolments ids db₁ e₃, first) (cancel_where-any order db.enrolments)

subscriptions_cancelled :
    (order : Uuid) (db : Db) {n : ℕ} {db' : Db}
    → SubscriptionCode.cancel_by_order_tx order db ≡ committed n db'
    → (any (still_granted order) db'.subscriptions ≡ false) × (db'.enrolments ≡ db.enrolments)
unfolding SubscriptionCode.cancel_by_order_tx SubscriptionRows.cancel_by_order_tx
subscriptions_cancelled order db {n} {db'} e =
    let e₁ = query_or-committed _ _ db e in
    let state : db' ≡ record db {
      subscriptions =
          SubscriptionRows.cancel_subscriptions (SubscriptionRows.is_open_of order)
            db.subscriptions;
    } =
      cc in
    rw state (cancel_subscriptions-any order db.subscriptions, refl)

-- The compensation of an order, when it commits, leaves the order no enrolment that is active and
-- no subscription that is not cancelled.
pub compensate_cancels :
    (order : Order) (now : Instant) (db : Db) {u : Unit} {db' : Db}
    → compensate_order_artifacts_tx order now db ≡ committed u db'
    → (any (still_enrolled order.id) db'.enrolments ≡ false)
      × (any (still_granted order.id) db'.subscriptions ≡ false)
unfolding compensate_order_artifacts_tx
compensate_cancels order now db {u} {db'} e =
    let (locks, db₁, e₁, f₁) = >>=-committed _ _ db e in
    let (u₂, db₂, e₂, f₂) = >>=-committed _ _ db₁ f₁ in
    let (u₃, db₃, e₃, f₃) = >>=-committed _ _ db₂ f₂ in
    let (n, db₄, e₄, f₄) = >>=-committed _ _ db₃ f₃ in
    let (m, db₅, e₅, f₅) = >>=-committed _ _ db₄ f₄ in
    let same : db' ≡ db₅ = cc in
    let (gone, kept) = subscriptions_cancelled order.id db₄ e₅ in
    rw same (rw kept (enrolments_cancelled order.id db₃ e₄), gone)

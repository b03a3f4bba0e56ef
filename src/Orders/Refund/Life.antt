-- ===== src/Orders/Refund/Life.antt =====
-- What the decisions on status requests allow.
use dream_fly_backend.Prelude.{◌≡◌, refl, true, false, List, [], ◌∷◌, arith, ◌↔◌, ◌⊎◌}
use dream_fly_backend.AppError.{Result, ok, err}
use dream_fly_backend.Orders.Model.{OrderStatus, cancelled, refunded, is_revenue, can_transition_to}
use dream_fly_backend.Orders.Refund.{
  TransitionDecision, no_op, flip, flip_and_compensate, decide_transition,
}

-- The status after a request that is carried out unless its decision refuses it.
abbrev after : OrderStatus → OrderStatus → Result TransitionDecision → OrderStatus
after current target (ok no_op) = current
after current target (ok flip) = target
after current target (ok flip_and_compensate) = target
after current target (err e) = current

abbrev request : OrderStatus → OrderStatus → OrderStatus
request current target = after current target (decide_transition current target)

abbrev pub requests : OrderStatus → List OrderStatus → OrderStatus
requests current [] = current
requests current (target ∷ targets) = requests (request current target) targets

abbrev pub IsTerminal : OrderStatus → Type 0
IsTerminal s = (s ≡ cancelled) ⊎ (s ≡ refunded)

request-terminal : (s t : OrderStatus) → IsTerminal s → request s t ≡ s
unfolding decide_transition
request-terminal s t h = ground arith

-- From cancelled or refunded no sequence of requests leads anywhere else.
pub terminal_absorbs :
    (s : OrderStatus) (targets : List OrderStatus) → IsTerminal s → requests s targets ≡ s
terminal_absorbs s [] h = refl
terminal_absorbs s (t ∷ ts) h = rw (request-terminal s t h) (terminal_absorbs s ts h)

-- What each decision means: `no_op` is exactly a request for the current status, `flip` exactly an
-- allowed transition that keeps the order's revenue status, and `flip_and_compensate` exactly an
-- allowed transition that takes it away.
pub decide_transition-decides :
    (s t : OrderStatus)
    → ((decide_transition s t ≡ ok no_op) ↔ (s ≡ t))
      × ((decide_transition s t ≡ ok flip)
          ↔ ((can_transition_to s t ≡ true) × (is_revenue t ≡ is_revenue s)))
      × ((decide_transition s t ≡ ok flip_and_compensate)
          ↔ ((can_transition_to s t ≡ true) × (is_revenue s ≡ true) × (is_revenue t ≡ false)))
unfolding decide_transition is_revenue
decide_transition-decides s t = ground arith

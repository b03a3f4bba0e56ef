-- ===== src/Orders/Refund.antt =====
-- src/modules/orders/refund.rs: what one status transition does.
pub mod Life
use dream_fly_backend.Prelude.{Bool, true, false, ◌&&◌, not, [], ◌∷◌, if◌then◌else◌}
use dream_fly_backend.AppError.{Result, ok, err, bad_request, format, str}
use dream_fly_backend.Orders.Model.{
  OrderStatus, cancelled, refunded, status_eq, status_str, can_transition_to, is_revenue,
}

pub data TransitionDecision : Type 0 where
  no_op flip flip_and_compensate : TransitionDecision

abbrev is_refund_target : OrderStatus → Bool
is_refund_target cancelled = true
is_refund_target refunded = true
is_refund_target _ = false

unfoldable pub compensation_required : OrderStatus → OrderStatus → Bool
unfolding is_revenue
compensation_required current target = is_revenue current && is_refund_target target

unfoldable pub decide_transition : OrderStatus → OrderStatus → Result TransitionDecision
unfolding can_transition_to compensation_required status_str
decide_transition current target =
    if status_eq current target
    then ok no_op
    else if not (can_transition_to current target)
    then err (
        bad_request (
          format "cannot transition order from '{}' to '{}'"
            (str (status_str current) ∷ str (status_str target) ∷ [])))
    else if compensation_required current target
    then ok flip_and_compensate
    else ok flip

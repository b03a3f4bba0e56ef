-- ===== src/Orders/Model/Spelling.antt =====
-- The spellings of the order statuses.
use text.Mathlib.Text.{◌==◌ as str_eq}
use dream_fly_backend.Prelude.{String, ◌≡◌, refl, ◌↔◌, some, any, spell-from_str}
use dream_fly_backend.Orders.Model.{
  OrderStatus, pending, paid, processing, completed, cancelled, refunded, status_str,
  status_from_str, is_revenue, revenue_statuses, OrderStatus_all,
}

round_trip : (s : OrderStatus) → status_from_str (status_str s) ≡ some s
unfolding status_from_str
round_trip pending = refl
round_trip paid = refl
round_trip processing = refl
round_trip completed = refl
round_trip cancelled = refl
round_trip refunded = refl

-- A text parses to a status exactly when it is that status's spelling.
pub status_from_str_iff :
    (x : String) (s : OrderStatus) → (status_from_str x ≡ some s) ↔ (status_str s ≡ x)
unfolding status_from_str
status_from_str_iff x s =
    (λ h. spell-from_str status_str OrderStatus_all x s h, λ e. rw (← e) (round_trip s))

-- The SQL array of revenue statuses holds exactly the spellings of the statuses that `is_revenue`
-- accepts.
is_revenue-eq-any : (s : OrderStatus) → is_revenue s ≡ any (str_eq (status_str s)) revenue_statuses
unfolding is_revenue status_str
is_revenue-eq-any pending = refl
is_revenue-eq-any paid = refl
is_revenue-eq-any processing = refl
is_revenue-eq-any completed = refl
is_revenue-eq-any cancelled = refl
is_revenue-eq-any refunded = refl

-- ===== src/Orders/Model.antt =====
-- src/modules/orders/model.rs: order statuses, their transitions, and the order row.
pub mod Spelling
use text.Mathlib.Text.{◌==◌ as str_eq}
use dream_fly_backend.Prelude.{ℤ, String, Bool, true, false, Option, List, [], ◌∷◌, find, from_str}
use dream_fly_backend.Base.{Uuid, Instant}
use dream_fly_backend.Cart.Model.{LineTarget}

pub data OrderStatus : Type 0 where
  pending paid processing completed cancelled refunded : OrderStatus

abbrev pub OrderStatus_all : List OrderStatus
OrderStatus_all = pending ∷ paid ∷ processing ∷ completed ∷ cancelled ∷ refunded ∷ []

unfoldable pub status_str : OrderStatus → String
status_str pending = "pending"
status_str paid = "paid"
status_str processing = "processing"
status_str completed = "completed"
status_str cancelled = "cancelled"
status_str refunded = "refunded"

unfoldable pub status_from_str : String → Option OrderStatus
unfolding status_str
status_from_str s = from_str status_str OrderStatus_all s

unfoldable pub can_transition_to : OrderStatus → OrderStatus → Bool
can_transition_to pending cancelled = true
can_transition_to paid processing = true
can_transition_to paid refunded = true
can_transition_to paid cancelled = true
can_transition_to processing completed = true
can_transition_to processing refunded = true
can_transition_to completed refunded = true
can_transition_to _ _ = false

unfoldable pub is_revenue : OrderStatus → Bool
is_revenue paid = true
is_revenue processing = true
is_revenue completed = true
is_revenue pending = false
is_revenue cancelled = false
is_revenue refunded = false

abbrev pub revenue_statuses : List String
revenue_statuses = "paid" ∷ "processing" ∷ "completed" ∷ []

abbrev pub payment_methods : List String
payment_methods = "credit_card" ∷ "line_pay" ∷ "atm" ∷ "jkopay" ∷ "cash" ∷ []

-- `derive(PartialEq)`
abbrev pub status_eq : OrderStatus → OrderStatus → Bool
status_eq pending pending = true
status_eq paid paid = true
status_eq processing processing = true
status_eq completed completed = true
status_eq cancelled cancelled = true
status_eq refunded refunded = true
status_eq _ _ = false

pub record Order : Type 0 where
  pub id : Uuid
  pub user_id : Uuid
  pub order_number : String
  pub status : OrderStatus
  pub total_cents : ℤ
  pub discount_cents : ℤ
  pub coupon_code : Option String
  pub points_used : ℤ
  pub points_earned : ℤ
  pub payment_method : Option String
  pub paid_at : Option Instant
  pub created_at : Instant

pub record OrderItem : Type 0 where
  pub id : Uuid
  pub order_id : Uuid
  pub target : LineTarget
  pub quantity : ℤ
  pub unit_price_cents : ℤ
  pub name : String
  pub stock_decremented : Bool
  pub created_at : Instant

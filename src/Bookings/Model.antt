-- ===== src/Bookings/Model.antt =====
-- src/modules/bookings/model.rs, and the columns of a time slot: src/modules/bookings/occupancy.rs.
use dream_fly_backend.Prelude.{ℕ, ℤ, String, Bool, true, false, Option, List, [], ◌∷◌}
use dream_fly_backend.Base.{Uuid}

pub data BookingStatus : Type 0 where
  pending confirmed cancelled completed no_show : BookingStatus

unfoldable pub booking_status_str : BookingStatus → String
booking_status_str pending = "pending"
booking_status_str confirmed = "confirmed"
booking_status_str cancelled = "cancelled"
booking_status_str completed = "completed"
booking_status_str no_show = "no_show"

abbrev pub is_cancellable : BookingStatus → Bool
is_cancellable pending = true
is_cancellable confirmed = true
is_cancellable _ = false

abbrev pub occupies_seat : BookingStatus → Bool
occupies_seat pending = true
occupies_seat confirmed = true
occupies_seat completed = true
occupies_seat no_show = true
occupies_seat cancelled = false

pub record Booking : Type 0 where
  pub id : Uuid
  pub user_id : Uuid
  pub time_slot_id : Uuid
  pub status : BookingStatus
  pub note : Option String
  pub price_cents : ℤ

abbrev pub venue_revenue_statuses : List String
venue_revenue_statuses = "confirmed" ∷ "completed" ∷ []

-- A `time_slots` row: a date is its day number, a time of day its second.
pub record TimeSlot : Type 0 where
  pub id : Uuid
  pub date : ℤ
  pub start_time : ℕ
  pub capacity : ℤ
  pub price_cents : ℤ
  pub is_closed : Bool

-- ===== src/Db/Tables.antt =====
-- The tables, with the columns that the modelled code reads or writes.
use dream_fly_backend.Prelude.{ℕ, ℤ, String, Bool, Option, List}
use dream_fly_backend.Attendance.Model.{AttendanceRecord}
use dream_fly_backend.Auth.Model.{RefreshToken}
use dream_fly_backend.Bookings.Model.{TimeSlot, Booking}
use dream_fly_backend.Coaches.Model.{Coach}
use dream_fly_backend.Messages.Model.{Conversation, ChatMessage}
use dream_fly_backend.Rewards.Model.{Reward, RewardRedemption}
use dream_fly_backend.Waitlist.Model.{WaitlistEntry}
use dream_fly_backend.Base.{Uuid}
use dream_fly_backend.Cart.Model.{CartItem}
use dream_fly_backend.Coupons.Model.{Coupon}
use dream_fly_backend.Courses.Model.{Course}
use dream_fly_backend.Enrolments.Model.{Enrolment}
use dream_fly_backend.Leave.Model.{LeaveRequest}
use dream_fly_backend.Orders.Model.{Order, OrderItem, OrderStatus}
use dream_fly_backend.Points.Model.{LedgerRow}
use dream_fly_backend.Products.Model.{Product}
use dream_fly_backend.Sessions.Model.{CourseSession, ScheduleSlot}
use dream_fly_backend.Subscriptions.Model.{Subscription}

-- A `users` row; `roles` are the names that `user_roles` gives it.
pub record UserRow : Type 0 where
  pub id : Uuid
  pub points_balance : ℤ
  pub is_active : Bool
  pub roles : List String

-- An `order_idempotency` row.
pub record IdempotencyRow : Type 0 where
  pub user_id : Uuid
  pub key : String
  pub order_id : Uuid

-- The domain events that the services put into the outbox, with their correlation id.
pub data DomainEvent : Type 0 where
  order_created : Order → Option String → DomainEvent
  order_status_changed : (order_id user_id : Uuid) → OrderStatus → Option String → DomainEvent
  booking_created booking_cancelled :
      (booking_id user_id time_slot_id : Uuid) → Option String → DomainEvent

-- A `notifications` row: src/modules/notifications/service.rs.
pub data Notice : Type 0 where
  order_placed : (user_id order_id : Uuid) → String → Notice
  order_status_updated : (user_id order_id : Uuid) → String → OrderStatus → Notice
  booking_was_confirmed booking_was_cancelled : (user_id booking_id : Uuid) → Notice
  leave_request_decided : (user_id : Uuid) → Bool → String → ℤ → Notice

pub record Db : Type 0 where
  pub users : List UserRow
  pub products : List Product
  pub courses : List Course
  pub course_sessions : List CourseSession
  pub coupons : List Coupon
  pub cart_items : List CartItem
  pub orders : List Order
  pub order_items : List OrderItem
  pub point_ledger : List LedgerRow
  pub enrolments : List Enrolment
  pub leave_requests : List LeaveRequest
  pub attendance_records : List AttendanceRecord
  pub schedule_slots : List ScheduleSlot
  pub coaches : List Coach
  pub waitlist_entries : List WaitlistEntry
  pub time_slots : List TimeSlot
  pub bookings : List Booking
  pub rewards : List Reward
  pub reward_redemptions : List RewardRedemption
  pub conversations : List Conversation
  pub messages : List ChatMessage
  pub refresh_tokens : List RefreshToken
  pub subscriptions : List Subscription
  pub order_idempotency : List IdempotencyRow
  pub outbox : List DomainEvent
  pub notifications : List Notice
  -- the generator of ids, and how many it has given out
  pub uuids : ℕ → Uuid
  pub drawn : ℕ

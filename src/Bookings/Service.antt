-- ===== src/Bookings/Service.antt =====
-- src/modules/bookings/service.rs: booking a time slot, and cancelling the booking.
use dream_fly_backend.Prelude.{
  ℕ, ℤ, pos, ◌-ℤ◌, ◌/ℤ◌, ltb_ℤ, not, String, Option, find, if◌then◌else◌, [], ◌∷◌,
}
use dream_fly_backend.Base.{Uuid}
use dream_fly_backend.AppError.{
  Result, ok, err, bad_request, not_found, conflict, conflict_on_unique, plain, format, str,
}
use dream_fly_backend.Bookings.Model.{Booking, TimeSlot, is_cancellable, booking_status_str}
use dream_fly_backend.Bookings.Occupancy.{
  occupy_slot_tx, insert_occupying_booking_tx, cancel_occupying_booking_tx, is_booking, is_slot,
}
use dream_fly_backend.Db.{
  Db, Sql, select, Tx, ◌>>=◌, ◌>>◌, pure, lift, some_or, query, query_or, reject_if, transaction,
  Notice, booking_created, booking_cancelled, booking_was_confirmed, booking_was_cancelled,
}
use dream_fly_backend.Extractors.Auth.{AuthUser, owns_or_admin, is_admin}
use dream_fly_backend.Orders.Checkout.{deliver}
use dream_fly_backend.Orders.Placing.{insert_domain_event_tx}
use dream_fly_backend.StudioClock.{StudioNow, to_utc_checked, require_not_started}

-- src/modules/bookings/repository.rs
unfoldable pub find_by_id_tx : Uuid → Sql (Option Booking)
find_by_id_tx id = select λ db. find (is_booking id) db.bookings

-- src/modules/schedule/repository.rs
unfoldable pub find_slot_tx : Uuid → Sql (Option TimeSlot)
find_slot_tx id = select λ db. find (is_slot id) db.time_slots

-- The notification after the commit.
abbrev pub notify_with : (Booking → Notice) → Result Booking × Db → Result Booking × Db
notify_with notice (err e, db) = (err e, db)
notify_with notice (ok b, db) = (ok b, deliver (notice b) db)

-- The answers are the rows, from which the handlers' DTOs are built.
unfoldable pub create_booking_body :
    StudioNow → Uuid → Uuid → Option String → Option String → Tx Booking
create_booking_body at user slot note correlation = do
  found ← occupy_slot_tx slot
  hold ← some_or found (bad_request (plain "time slot is full or closed"))
  lift (
      require_not_started at hold.slot.date hold.slot.start_time "time slot"
        (bad_request (plain "cannot book a time slot that has already started")))
  booking ←
      query_or (λ e. conflict_on_unique e (plain "you already have a booking for this time slot"))
        (insert_occupying_booking_tx hold user note)
  query (
      insert_domain_event_tx
        (booking_created booking.id booking.user_id booking.time_slot_id correlation))
  pure booking

unfoldable pub create_booking :
    StudioNow → Uuid → Uuid → Option String → Option String → Db → Result Booking × Db
create_booking at user slot note correlation db =
    notify_with (λ b. booking_was_confirmed b.user_id b.id)
      (transaction (create_booking_body at user slot note correlation) db)

-- `num_hours`, of a duration in microseconds.
abbrev pub hour : ℕ
hour = 3_600_000_000

abbrev pub num_hours : ℤ → ℤ
num_hours duration = duration /ℤ hour

-- The 24-hour rule, of which admins are exempt.
unfoldable pub check_window_tx : StudioNow → AuthUser → Booking → Tx (Unit {0})
check_window_tx at auth booking = if is_admin auth then pure tt else do
  found ← query (find_slot_tx booking.time_slot_id)
  slot ← some_or found (not_found (plain "time slot not found"))
  slot_utc ← lift (to_utc_checked at slot.date slot.start_time "time slot")
  reject_if (ltb_ℤ (num_hours (slot_utc -ℤ at.now)) (pos 24))
      (bad_request (plain "cannot cancel within 24 hours of the scheduled time"))

unfoldable pub cancel_booking_body : StudioNow → AuthUser → Uuid → Option String → Tx Booking
cancel_booking_body at auth id correlation = do
  found ← query (find_by_id_tx id)
  booking ← some_or found (not_found (plain "booking not found"))
  lift (owns_or_admin auth booking.user_id "you can only cancel your own bookings")
  reject_if (not (is_cancellable booking.status)) (
      bad_request (
        format "booking in state '{}' cannot be cancelled"
          (str (booking_status_str booking.status) ∷ [])))
  check_window_tx at auth booking
  released ← query (cancel_occupying_booking_tx id)
  updated ← some_or released (conflict (plain "booking is already cancelled"))
  query (
      insert_domain_event_tx
        (booking_cancelled updated.id updated.user_id updated.time_slot_id correlation))
  pure updated

unfoldable pub cancel_booking :
    StudioNow → AuthUser → Uuid → Option String → Db → Result Booking × Db
cancel_booking at auth id correlation db =
    notify_with (λ b. booking_was_cancelled b.user_id b.id)
      (transaction (cancel_booking_body at auth id correlation) db)

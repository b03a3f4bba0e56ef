-- ===== src/Bookings/Occupancy.antt =====
-- src/modules/bookings/occupancy.rs: taking and releasing a place of a time slot.
use dream_fly_backend.Prelude.{
  ◌+◌, ℤ, pos, leb_ℤ, String, Bool, true, false, not, ◌&&◌, Option, none, some, List, [], ◌∷◌, ◌++◌,
  map, find, any, count, ◌==◌, if◌then◌else◌,
}
use dream_fly_backend.Base.{Uuid}
use dream_fly_backend.AppError.{database, unique_violation}
use dream_fly_backend.Bookings.Model.{
  BookingStatus, confirmed, cancelled, occupies_seat, Booking, TimeSlot,
}
use dream_fly_backend.Db.{Sql, done, failed, select, Tx, ◌>>=◌, pure, query}

abbrev pub is_slot : Uuid → TimeSlot → Bool
is_slot id slot = slot.id == id

abbrev pub if_open : Option TimeSlot → Option TimeSlot
if_open none = none
if_open (some slot) = if slot.is_closed then none else some slot

-- A row of `occupying_bookings`.
abbrev pub occupies : Uuid → Booking → Bool
occupies slot b = occupies_seat b.status && b.time_slot_id == slot

-- `SELECT … WHERE id = $1 AND is_closed = false FOR NO KEY UPDATE`, by primary key.
unfoldable pub lock_slot_tx : Uuid → Sql (Option TimeSlot)
lock_slot_tx id = select λ db. if_open (find (is_slot id) db.time_slots)

unfoldable pub count_occupying : Uuid → Sql ℤ
count_occupying id = select λ db. pos (count (occupies id) db.bookings)

-- The witness `SlotOccupancy`.
pub record SlotOccupancy : Type 0 where
  pub slot : TimeSlot

abbrev pub hold_if_room : TimeSlot → ℤ → Option SlotOccupancy
hold_if_room slot occupied =
    if leb_ℤ slot.capacity occupied then none else some (record { slot = slot })

abbrev pub hold_of : Option TimeSlot → Tx (Option SlotOccupancy)
hold_of none = pure none
hold_of (some slot) = do
  occupied ← query (count_occupying slot.id)
  pure (hold_if_room slot occupied)

unfoldable pub occupy_slot_tx : Uuid → Tx (Option SlotOccupancy)
occupy_slot_tx slot_id = do found ← query (lock_slot_tx slot_id); hold_of found

abbrev pub new_booking : Uuid → SlotOccupancy → Uuid → Option String → Booking
new_booking id hold user note = record {
  id = id;
  user_id = user;
  time_slot_id = hold.slot.id;
  status = confirmed;
  note = note;
  price_cents = hold.slot.price_cents;
}

abbrev pub is_cancelled : BookingStatus → Bool
is_cancelled cancelled = true
is_cancelled _ = false

-- The key of the partial unique index `uq_bookings_user_slot_active`.
abbrev pub holds_slot : Uuid → Uuid → Booking → Bool
holds_slot user slot b = not (is_cancelled b.status) && b.user_id == user && b.time_slot_id == slot

unfoldable pub insert_occupying_booking_tx : SlotOccupancy → Uuid → Option String → Sql Booking
insert_occupying_booking_tx hold user note db =
    let row = new_booking (db.uuids db.drawn) hold user note in
    if any (holds_slot user hold.slot.id) db.bookings
    then failed (database unique_violation (some "uq_bookings_user_slot_active"))
    else done row (record db { bookings = db.bookings ++ row ∷ []; drawn = db.drawn + 1 })

abbrev pub is_booking : Uuid → Booking → Bool
is_booking id b = b.id == id

abbrev pub is_held : Uuid → Booking → Bool
is_held id b = is_booking id b && not (is_cancelled b.status)

abbrev pub cancel_row : Booking → Booking
cancel_row b = record b { status = cancelled }

unfoldable pub cancel_held : Uuid → List Booking → List Booking
cancel_held id bs = map (λ b. if is_held id b then cancel_row b else b) bs

abbrev pub cancelled_row : Option Booking → Option Booking
cancelled_row none = none
cancelled_row (some b) = some (cancel_row b)

-- `UPDATE … RETURNING`, by primary key.
unfoldable pub cancel_occupying_booking_tx : Uuid → Sql (Option Booking)
cancel_occupying_booking_tx id db =
    done (cancelled_row (find (is_held id) db.bookings))
      (record db { bookings = cancel_held id db.bookings })

-- ===== src/Bookings/Outcome.antt =====
-- src/modules/bookings/service.rs: every outcome of a booking and of a cancellation.
use dream_fly_backend.Prelude.{◌≡◌, ◌⊎◌, refl, String, Option, inl, inr}
use dream_fly_backend.Base.{Uuid}
use dream_fly_backend.AppError.{AppError, Result, ok, err}
use dream_fly_backend.Bookings.Booked.{IsBooked, create_booking_body-IsBooked}
use dream_fly_backend.Bookings.Model.{Booking}
use dream_fly_backend.Bookings.Released.{IsReleased, cancel_booking_body-IsReleased}
use dream_fly_backend.Bookings.Service.{
  create_booking, create_booking_body, cancel_booking, cancel_booking_body, notify_with,
}
use dream_fly_backend.Db.{
  Db, Tx, TxOut-cases, transaction, transaction-run, transaction-stop, committed, Notice,
  booking_was_confirmed, booking_was_cancelled,
}
use dream_fly_backend.Extractors.Auth.{AuthUser}
use dream_fly_backend.Orders.Checkout.{deliver}
use dream_fly_backend.StudioClock.{StudioNow}

-- An error with the database as it was, or a row, a transaction that `P` describes, and a notice.
abbrev pub Outcome :
    (P : Booking → Db → Type 0) (notice : Booking → Notice) → Db → Result Booking × Db → Type 0
Outcome P notice db r =
    ((e : AppError) × (r ≡ (err e, db)))
    ⊎ ((b : Booking) × (db' : Db) × P b db' × (r ≡ (ok b, deliver (notice b) db')))

outcome :
    (P : Booking → Db → Type 0) (notice : Booking → Notice) (body : Tx Booking) (db : Db)
    → ((b : Booking) (db' : Db) → body db ≡ committed b db' → P b db')
    → Outcome P notice db (notify_with notice (transaction body db))
outcome P notice body db h = elim (TxOut-cases (body db)) [
  | inl (b, db', e) ↦ inr (b, db', h b db' e, rw (transaction-run body db e) refl)
  | inr (x, e) ↦ inl (x, rw (transaction-stop body db e) refl)
]

-- `create_booking` either reports an error and leaves the database as it was, or the slot is listed,
-- open, not yet started and has a place free, the user holds none of its places, and exactly the
-- confirmed row with the slot's price, its event and its notification are added.
pub create_booking-Outcome :
    (at : StudioNow) (user slot : Uuid) (text correlation : Option String) (db : Db)
    → Outcome
        (λ b db'. IsBooked at user slot text correlation b db db')
        (λ b. booking_was_confirmed b.user_id b.id)
        db
        (create_booking at user slot text correlation db)
unfolding create_booking
create_booking-Outcome at user slot text correlation db =
    outcome (λ b db'. IsBooked at user slot text correlation b db db') _
      (create_booking_body at user slot text correlation) db
      (λ b db' e. create_booking_body-IsBooked at user slot text correlation db e)

-- `cancel_booking` either reports an error and leaves the database as it was, or the caller owns the
-- booking or is an admin, it was pending or confirmed, an admin cancels or its slot starts a day from
-- now or later, and exactly that row becomes cancelled, with its event and its notification.
pub cancel_booking-Outcome :
    (at : StudioNow) (auth : AuthUser) (id : Uuid) (correlation : Option String) (db : Db)
    → Outcome
        (λ b db'. IsReleased at auth id correlation b db db')
        (λ b. booking_was_cancelled b.user_id b.id)
        db
        (cancel_booking at auth id correlation db)
unfolding cancel_booking
cancel_booking-Outcome at auth id correlation db =
    outcome (λ b db'. IsReleased at auth id correlation b db db') _
      (cancel_booking_body at auth id correlation) db
      (λ b db' e. cancel_booking_body-IsReleased at auth id correlation db e)

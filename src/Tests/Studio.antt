-- ===== src/Tests/Studio.antt =====
-- Bookings, leave requests and attendance at concrete inputs.
use dream_fly_backend.Prelude.{
  ℕ, refl, pos, ℤ, ◌+ℤ◌, ◌*ℤ◌, false, Option, none, some, List, [], ◌∷◌, arith, Bool-cases, inl,
  inr, ◌==◌,
}
use dream_fly_backend.Base.{Instant}
use dream_fly_backend.Attendance.Projected.{IsProjected}
use dream_fly_backend.Bookings.Booked.{IsBooked}
use dream_fly_backend.Bookings.Capacity.{
  IsFitting, Request, book, cancel, serve_all, serve_all-IsFitting,
}
use dream_fly_backend.Bookings.Model.{TimeSlot}
use dream_fly_backend.Bookings.Outcome.{Outcome, create_booking-Outcome, cancel_booking-Outcome}
use dream_fly_backend.Bookings.Released.{IsReleased}
use dream_fly_backend.Bookings.Service.{create_booking, cancel_booking}
use dream_fly_backend.Db.{Db, booking_was_confirmed, booking_was_cancelled}
use dream_fly_backend.Enrolments.Model.{EnrolmentStatus}
use dream_fly_backend.Extractors.Auth.{AuthUser}
use dream_fly_backend.Leave.Actions.{
  Action, ask, judge, make_up, mark_all, unenrol, perform_all, perform_all-IsProjected,
}
use dream_fly_backend.Sessions.Model.{CourseSession}
use dream_fly_backend.StudioClock.{StudioNow}
use dream_fly_backend.Tests.{shop, noon, trapeze}

-- Days and seconds of a studio in UTC, in microseconds.
abbrev utc : ℤ → ℕ → Option Instant
utc date time = some (date *ℤ pos 86_400_000_000 +ℤ pos time *ℤ pos 1_000_000)

abbrev at : StudioNow
at = record { zone = utc; now = noon }

abbrev auth : AuthUser
auth = record { user_id = 1; email = "m@dream.fly"; roles = "member" ∷ [] }

abbrev coach_auth : AuthUser
coach_auth = record { user_id = 3; email = "c@dream.fly"; roles = "coach" ∷ [] }

abbrev hall : TimeSlot
hall = record {
  id = 70;
  date = pos 30_000;
  start_time = 36_000;
  capacity = pos 1;
  price_cents = pos 80_000;
  is_closed = false;
}

abbrev venue : Db
venue = record shop { time_slots = hall ∷ [] }

create_booking-Outcome_example :
    Outcome
      (λ b db'. IsBooked at 1 70 none none b venue db')
      (λ b. booking_was_confirmed b.user_id b.id)
      venue
      (create_booking at 1 70 none none venue)
create_booking-Outcome_example = create_booking-Outcome at 1 70 none none venue

abbrev booked : Db
booked = (create_booking at 1 70 none none venue).1

cancel_booking-Outcome_example :
    Outcome
      (λ b db'. IsReleased at auth 1_000 none b booked db')
      (λ b. booking_was_cancelled b.user_id b.id)
      booked
      (cancel_booking at auth 1_000 none booked)
cancel_booking-Outcome_example = cancel_booking-Outcome at auth 1_000 none booked

venue-IsFitting : IsFitting venue
venue-IsFitting = record {
  fits = λ slot found listed. elim (Bool-cases (70 == slot)) [
    | inl mine ↦ ground (arith, rw mine at listed)
    | inr other ↦ (let listed' = rw other at listed in cc listed')
  ];
  single = λ user slot. ground arith;
}

abbrev rush : List Request
rush =
    book at 1 70 none none
    ∷ book at 2 70 none none
    ∷ cancel at auth 1_000 none
    ∷ book at 2 70 none none
    ∷ []

serve_all-IsFitting_example : IsFitting (serve_all rush venue)
serve_all-IsFitting_example = serve_all-IsFitting rush venue venue-IsFitting

abbrev evening : CourseSession
evening = record {
  id = 80;
  course_id = 30;
  session_date = pos 30_000;
  start_time = 68_400;
  end_time = 72_000;
  venue = none;
}

abbrev class : Db
class = record shop {
  courses = record trapeze { coach_id = some 90 } ∷ [];
  coaches = record { id = 90; user_id = 3 } ∷ [];
  course_sessions = evening ∷ record evening { id = 81; session_date = pos 30_001 } ∷ [];
  enrolments =
      record {
        id = 60;
        user_id = 1;
        course_id = 30;
        order_id = none;
        status = EnrolmentStatus.active;
        enrolled_at = pos 0;
      }
      ∷ [];
}

abbrev week : List Action
week =
    ask at auth 80 none
    ∷ judge coach_auth 1_000 "approved"
    ∷ make_up at auth 1_000 81
    ∷ mark_all (record at { now = pos 3_000_000_000_000_000 }) coach_auth 80
        (record { enrolment_id = 60; status = "absent" } ∷ [])
    ∷ unenrol auth 60
    ∷ []

perform_all-IsProjected_example : IsProjected (perform_all week class)
perform_all-IsProjected_example = perform_all-IsProjected week class refl

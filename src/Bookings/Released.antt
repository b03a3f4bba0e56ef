-- ===== src/Bookings/Released.antt =====
-- src/modules/bookings/service.rs: what `cancel_booking` has checked and written when it commits.
use dream_fly_backend.Prelude.{
  ℕ, ◌≡◌, ◌⊎◌, ap, ◌∙◌, ℤ, pos, negsuc, ◌+ℤ◌, ◌-ℤ◌, ◌/ℤ◌, ◌≤ℤ◌, ltb_ℤ, int_laws, +ℤ_parts, -ℤ_parts,
  String, true, false, ◌||◌, Option, some, List, [], ◌∷◌, ◌++◌, arith, find, ◌==◌, Bool-cases, inl,
  inr, Option-cases,
}
use dream_fly_backend.Base.{Uuid, Instant}
use dream_fly_backend.AppError.{ok}
use dream_fly_backend.Bookings.Booked.{queued-state}
use dream_fly_backend.Bookings.Model.{Booking, TimeSlot, is_cancellable}
use dream_fly_backend.Bookings.Occupancy.{
  is_booking, is_slot, is_held, cancel_row, cancel_held, cancelled_row, cancel_occupying_booking_tx,
}
use dream_fly_backend.Bookings.Service.{
  cancel_booking_body, check_window_tx, find_by_id_tx, find_slot_tx, num_hours,
}
use dream_fly_backend.Db.{
  Db, committed, query-then, some_or-then, lift-then, reject_if-then, reject_if-committed,
  >>=-committed, booking_cancelled, done,
}
use dream_fly_backend.Extractors.Auth.{AuthUser, owns_or_admin, is_admin}
use dream_fly_backend.StudioClock.{StudioNow, to_utc_checked}

abbrev pub day : ℤ
day = pos 86_400_000_000

-- The slot starts a day from now, or later.
pub record IsAhead (at : StudioNow) (slot : Uuid) (db : Db) : Type 0 where
  pub found : TimeSlot
  pub listed : find (is_slot slot) db.time_slots ≡ some found
  pub start : Instant
  pub starts : at.zone found.date found.start_time ≡ some start
  pub ahead : at.now +ℤ day ≤ℤ start

pub record IsReleased (at : StudioNow) (auth : AuthUser) (id : Uuid) (correlation : Option String)
    (b : Booking) (db db' : Db) : Type 0 where
  pub booking : Booking
  pub listed : find (is_booking id) db.bookings ≡ some booking
  pub permitted : ((auth.user_id == booking.user_id) || is_admin auth) ≡ true
  pub open_row : is_cancellable booking.status ≡ true
  pub window : (is_admin auth ≡ true) ⊎ IsAhead at booking.time_slot_id db
  pub row : b ≡ cancel_row booking
  pub state : db' ≡ record db {
    bookings = cancel_held id db.bookings;
    outbox = db.outbox ++ booking_cancelled b.id b.user_id b.time_slot_id correlation ∷ [];
  }

whole_hours : (z : ℤ) → ltb_ℤ (num_hours z) (pos 24) ≡ false → day ≤ℤ z
unfolding ◌/ℤ◌
whole_hours (pos n) h = ground arith
whole_hours (negsuc n) h = absurd (ground arith)

-- Less than 24 whole hours is less than a day.
num_hours-day :
    (start now : Instant) → ltb_ℤ (num_hours (start -ℤ now)) (pos 24) ≡ false → now +ℤ day ≤ℤ start
num_hours-day start now h =
    let far = whole_hours (start -ℤ now) h in
    omega (int_laws, far, -ℤ_parts start now, +ℤ_parts now day)

owns-ok :
    (auth : AuthUser) (owner : Uuid) (msg : String) {u : Unit {0}}
    → owns_or_admin auth owner msg ≡ ok u
    → ((auth.user_id == owner) || is_admin auth) ≡ true
unfolding owns_or_admin
owns-ok auth owner msg h = elim (Bool-cases ((auth.user_id == owner) || is_admin auth)) [
  | inl granted ↦ granted
  | inr denied ↦ let h' = rw (denied, owns_or_admin) at h in cc h'
]

to_utc_checked-ok :
    (at : StudioNow) (date : ℤ) (time : ℕ) (noun : String) {utc : Instant}
    → to_utc_checked at date time noun ≡ ok utc
    → at.zone date time ≡ some utc
unfolding to_utc_checked
to_utc_checked-ok at date time noun h = elim (Option-cases (at.zone date time)) [
  | inl gone ↦ absurd (ground (arith, rw (gone, to_utc_checked) at h))
  | inr (utc, there) ↦ let h' = rw (there, to_utc_checked) at h in ground (arith, there, h')
]

check_window_tx-IsAhead :
    (at : StudioNow) (auth : AuthUser) (booking : Booking) (db : Db) {u : Unit {0}} {db' : Db}
    → check_window_tx at auth booking db ≡ committed u db'
    → (db' ≡ db) × ((is_admin auth ≡ true) ⊎ IsAhead at booking.time_slot_id db)
unfolding check_window_tx find_slot_tx
check_window_tx-IsAhead at auth booking db h = elim (Bool-cases (is_admin auth)) [
  | inl boss ↦ let h' = rw (boss, check_window_tx) at h in (cc h', inl boss)
  | inr plain_user ↦
      let h' = rw (plain_user, check_window_tx) at h in
      let (found, db₁, look, h₁) = query-then _ _ _ db h' in
      let (slot, is, h₂) = some_or-then _ _ _ db₁ h₁ in
      let (start, timely, h₃) = lift-then _ _ _ h₂ in
      let (ahead, stay) = reject_if-committed _ _ db₁ h₃ in
      let same : db₁ ≡ db = cc look in
      (
        stay ∙ same,
        inr record {
          found = slot;
          listed =
              (let q : find (is_slot booking.time_slot_id) db.time_slots ≡ found = cc look in
                q ∙ is);
          start = start;
          starts = to_utc_checked-ok at slot.date slot.start_time _ timely;
          ahead = num_hours-day start at.now ahead;
        },
      )
]

held-row :
    (id : Uuid) (bs : List Booking) {booking b : Booking}
    → find (is_booking id) bs ≡ some booking
    → is_cancellable booking.status ≡ true
    → cancelled_row (find (is_held id) bs) ≡ some b
    → b ≡ cancel_row booking
held-row id [] listed open_row h = cc listed
held-row id (x ∷ xs) listed open_row h = elim (Bool-cases (x.id == id)) [
  | inl hit ↦
      let same : some x ≡ some _ = rw hit at listed in
      let held : is_held id x ≡ true = ground (arith, hit, same, open_row) in
      let h' = rw held at h in ground (arith, same, h')
  | inr miss ↦ held-row id xs (rw miss at listed) open_row (rw miss at h)
]

find_by_id_tx-state :
    (id : Uuid) (db : Db) {o : Option Booking} {db' : Db}
    → find_by_id_tx id db ≡ done o db'
    → (find (is_booking id) db.bookings ≡ o) × (db' ≡ db)
unfolding find_by_id_tx
find_by_id_tx-state id db h = (cc h, cc h)

cancel_occupying-state :
    (id : Uuid) (db : Db) {o : Option Booking} {db' : Db}
    → cancel_occupying_booking_tx id db ≡ done o db'
    → (cancelled_row (find (is_held id) db.bookings) ≡ o)
      × (db' ≡ record db { bookings = cancel_held id db.bookings })
unfolding cancel_occupying_booking_tx
cancel_occupying-state id db h = (cc h, cc h)

pub cancel_booking_body-IsReleased :
    (at : StudioNow) (auth : AuthUser) (id : Uuid) (correlation : Option String) (db : Db)
    {b : Booking} {db' : Db}
    → cancel_booking_body at auth id correlation db ≡ committed b db'
    → IsReleased at auth id correlation b db db'
unfolding cancel_booking_body
cancel_booking_body-IsReleased at auth id correlation db h =
    let (o, db₁, look, h₁) = query-then _ _ _ db h in
    let (booking, is, h₂) = some_or-then _ _ _ db₁ h₁ in
    let (u, owns, h₃) = lift-then _ _ db₁ h₂ in
    let (shut, h₄) = reject_if-then _ _ _ db₁ h₃ in
    let (v, db₂, timely, h₅) = >>=-committed _ _ db₁ h₄ in
    let (released, db₃, flipped, h₆) = query-then _ _ _ db₂ h₅ in
    let (updated, some_row, h₇) = some_or-then _ _ _ db₃ h₆ in
    let (final, written) = queued-state _ _ db₃ h₇ in
    let (seen, same₁) = find_by_id_tx-state id db look in
    let listed : find (is_booking id) db.bookings ≡ some booking = seen ∙ is in
    let (stay, window) = check_window_tx-IsAhead at auth booking db₁ timely in
    let same₂ : db₂ ≡ db = stay ∙ same₁ in
    let (row, after) = cancel_occupying-state id db₂ flipped in
    let open_row : is_cancellable booking.status ≡ true = ground (arith, shut) in
    let got = held-row id db.bookings listed open_row (rw same₂ at row ∙ some_row) in
    record {
      booking = booking;
      listed = listed;
      permitted = owns-ok auth booking.user_id _ owns;
      open_row = open_row;
      window = rw same₁ at window;
      row = final ∙ got;
      state = rw final (
          written
          ∙ ap
              (λ (d : Db). record d {
                outbox =
                    d.outbox
                    ++ booking_cancelled updated.id updated.user_id updated.time_slot_id correlation
                      ∷ [];
              })
              (after ∙ ap (λ (d : Db). record d { bookings = cancel_held id d.bookings }) same₂));
    }

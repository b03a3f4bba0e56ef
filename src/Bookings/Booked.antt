-- ===== src/Bookings/Booked.antt =====
-- src/modules/bookings/service.rs: what `create_booking` has checked and written when it commits.
use dream_fly_backend.Prelude.{
  ℕ, ◌+◌, ◌≡◌, ap, ◌∙◌, ℤ, pos, leb_ℤ, String, false, Option, none, some, List, [], ◌∷◌, ◌++◌,
  arith, count, any, find, ◌==◌, ==_iff, Bool-cases, inl, inr, Option-cases,
}
use dream_fly_backend.Base.{Uuid, Instant}
use dream_fly_backend.AppError.{AppError, ok}
use dream_fly_backend.Bookings.Model.{Booking, TimeSlot}
use dream_fly_backend.Bookings.Occupancy.{
  is_slot, if_open, occupies, holds_slot, hold_if_room, hold_of, occupy_slot_tx, lock_slot_tx,
  count_occupying, SlotOccupancy, new_booking, insert_occupying_booking_tx,
}
use dream_fly_backend.Bookings.Service.{create_booking_body}
use dream_fly_backend.Db.{
  Db, committed, query-then, some_or-then, lift-then, >>=-committed, done, pure, query, ◌>>◌,
  DomainEvent, booking_created,
}
use dream_fly_backend.Orders.Placing.{insert_domain_event_tx}
use dream_fly_backend.StudioClock.{StudioNow, require_not_started, to_utc_checked}

pub record IsBooked (at : StudioNow) (user slot : Uuid) (text correlation : Option String)
    (b : Booking) (db db' : Db) : Type 0 where
  pub found : TimeSlot
  pub listed : find (is_slot slot) db.time_slots ≡ some found
  pub named : found.id ≡ slot
  pub unclosed : found.is_closed ≡ false
  pub room : leb_ℤ found.capacity (pos (count (occupies slot) db.bookings)) ≡ false
  pub start : Instant
  pub starts : at.zone found.date found.start_time ≡ some start
  pub future : leb_ℤ start at.now ≡ false
  pub absent : any (holds_slot user slot) db.bookings ≡ false
  pub row : b ≡ new_booking (db.uuids db.drawn) (record { slot = found }) user text
  pub state : db' ≡ record db {
    bookings = db.bookings ++ b ∷ [];
    drawn = db.drawn + 1;
    outbox = db.outbox ++ booking_created b.id b.user_id b.time_slot_id correlation ∷ [];
  }

find_slot :
    (slot : Uuid) (slots : List TimeSlot) {t : TimeSlot}
    → find (is_slot slot) slots ≡ some t
    → t.id ≡ slot
find_slot slot [] h = cc h
find_slot slot (x ∷ xs) h = elim (Bool-cases (x.id == slot)) [
  | inl hit ↦ let e = rw hit at h in let e' = (==_iff x.id slot).0 hit in ground (arith, e, e')
  | inr miss ↦ find_slot slot xs (rw miss at h)
]

require_not_started-ok :
    (at : StudioNow) (date : ℤ) (time : ℕ) (noun : String) (e : AppError) {u : Unit {0}}
    → require_not_started at date time noun e ≡ ok u
    → (utc : Instant) × (at.zone date time ≡ some utc) × (leb_ℤ utc at.now ≡ false)
unfolding require_not_started to_utc_checked
require_not_started-ok at date time noun e h = elim (Option-cases (at.zone date time)) [
  | inl gone ↦ absurd (ground (arith, rw (gone, require_not_started) at h))
  | inr (utc, there) ↦ elim (Bool-cases (leb_ℤ utc at.now)) [
    | inl late ↦ let h' = rw (there, require_not_started) at h in let h'' = rw late at h' in cc h''
    | inr early ↦ (utc, there, early)
  ]
]

-- What a hold has found.
record IsHold (slot : Uuid) (hold : SlotOccupancy) (db db' : Db) : Type 0 where
  same : db' ≡ db
  listed : find (is_slot slot) db.time_slots ≡ some hold.slot
  unclosed : hold.slot.is_closed ≡ false
  room : leb_ℤ hold.slot.capacity (pos (count (occupies slot) db.bookings)) ≡ false

if_open-some :
    (o : Option TimeSlot) {t : TimeSlot} → if_open o ≡ some t → (o ≡ some t) × (t.is_closed ≡ false)
if_open-some none h = cc h
if_open-some (some x) h = elim (Bool-cases x.is_closed) [
  | inl shut ↦ let h' = rw shut at h in cc h'
  | inr wide ↦ (ground (arith, wide, h), ground (arith, wide, h))
]

hold_if_room-some :
    (t : TimeSlot) (n : ℤ) {hold : SlotOccupancy}
    → hold_if_room t n ≡ some hold
    → (t ≡ hold.slot) × (leb_ℤ t.capacity n ≡ false)
hold_if_room-some t n h = elim (Bool-cases (leb_ℤ t.capacity n)) [
  | inl full ↦ let h' = rw full at h in cc h'
  | inr room ↦ let h' = rw room at h in (ap (λ o. elim o [ some x ↦ x.slot | none ↦ t ]) h', room)
]

-- A hold on a row that the lock has found.
hold_of-some :
    (o : Option TimeSlot) (db : Db) {r : Option SlotOccupancy} {hold : SlotOccupancy} {db' : Db}
    → hold_of o db ≡ committed r db'
    → r ≡ some hold
    → (db' ≡ db)
      × (o ≡ some hold.slot)
      × (leb_ℤ hold.slot.capacity (pos (count (occupies hold.slot.id) db.bookings)) ≡ false)
unfolding count_occupying
hold_of-some none db h e = cc
hold_of-some (some t) db h e =
    let (occupied, db₁, counted, h₁) = query-then _ _ _ db h in
    let stay : db₁ ≡ db = cc in
    let number : occupied ≡ pos (count (occupies t.id) db.bookings) = cc in
    let kept : hold_if_room t occupied ≡ some _ =
      (let q : hold_if_room t occupied ≡ _ = cc h₁ in q ∙ e) in
    let (same, room) = hold_if_room-some t occupied kept in
    (ground (arith, h₁, stay), ap some same, rw (← same) (rw number at room))

occupy_slot_tx-IsHold :
    (slot : Uuid) (db : Db) {o : Option SlotOccupancy} {hold : SlotOccupancy} {db' : Db}
    → occupy_slot_tx slot db ≡ committed o db'
    → o ≡ some hold
    → IsHold slot hold db db'
unfolding occupy_slot_tx lock_slot_tx
occupy_slot_tx-IsHold slot db h e =
    let (found, db₁, look, h₁) = query-then _ _ _ db h in
    let stay : db₁ ≡ db = cc in
    let row : if_open (find (is_slot slot) db.time_slots) ≡ found = cc in
    let (stay', is, room) = hold_of-some found db₁ h₁ e in
    let (listed, unclosed) = if_open-some (find (is_slot slot) db.time_slots) (row ∙ is) in
    record {
      same = stay' ∙ stay;
      listed = listed;
      unclosed = unclosed;
      room = rw (← find_slot slot db.time_slots listed, ← stay) room;
    }

insert_occupying-state :
    (hold : SlotOccupancy) (user : Uuid) (text : Option String) (db : Db) {b : Booking} {db' : Db}
    → insert_occupying_booking_tx hold user text db ≡ done b db'
    → (any (holds_slot user hold.slot.id) db.bookings ≡ false)
      × (b ≡ new_booking (db.uuids db.drawn) hold user text)
      × (db' ≡ record db { bookings = db.bookings ++ b ∷ []; drawn = db.drawn + 1 })
unfolding insert_occupying_booking_tx
insert_occupying-state hold user text db h =
    elim (Bool-cases (any (holds_slot user hold.slot.id) db.bookings)) [
      | inl twice ↦ absurd (ground (arith, twice))
      | inr absent ↦ (absent, ground (arith, absent), ground (arith, absent))
    ]

-- The event at the end of the transaction.
pub queued-state :
    (event : DomainEvent) (answer : Booking) (db : Db) {b : Booking} {db' : Db}
    → (query (insert_domain_event_tx event) >> pure answer) db ≡ committed b db'
    → (b ≡ answer) × (db' ≡ record db { outbox = db.outbox ++ event ∷ [] })
unfolding insert_domain_event_tx
queued-state event answer db h =
    let (v, db₁, queued, rest) = query-then _ _ _ db h in
    let after : db₁ ≡ record db { outbox = db.outbox ++ event ∷ [] } = cc in
    (cc, (let ended : _ ≡ db₁ = cc rest in ended) ∙ after)

pub create_booking_body-IsBooked :
    (at : StudioNow) (user slot : Uuid) (text correlation : Option String) (db : Db) {b : Booking}
    {db' : Db}
    → create_booking_body at user slot text correlation db ≡ committed b db'
    → IsBooked at user slot text correlation b db db'
unfolding create_booking_body
create_booking_body-IsBooked at user slot text correlation db {b} {db'} h =
    let (o, db₁, held, h₁) = >>=-committed _ _ db h in
    let (hold, is, h₂) = some_or-then _ _ _ db₁ h₁ in
    let got = occupy_slot_tx-IsHold slot db held is in
    let (u, timely, h₃) = lift-then _ _ _ h₂ in
    let (start, starts, future) =
      require_not_started-ok at hold.slot.date hold.slot.start_time _ _ timely in
    let (b₁, db₂, ins, h₄) = query-then _ _ _ db₁ h₃ in
    let (final, written) = queued-state _ _ db₂ h₄ in
    let (absent, row, state) = insert_occupying-state hold user text db (rw got.same at ins) in
    let named = find_slot slot db.time_slots got.listed in
    record {
      found = hold.slot;
      listed = got.listed;
      named = named;
      unclosed = got.unclosed;
      room = got.room;
      start = start;
      starts = starts;
      future = future;
      absent = rw (← named) absent;
      row = final ∙ row;
      state = rw final (
          written
          ∙ ap
              (λ (d : Db). record d {
                outbox =
                    d.outbox ++ booking_created b₁.id b₁.user_id b₁.time_slot_id correlation ∷ [];
              })
              state);
    }

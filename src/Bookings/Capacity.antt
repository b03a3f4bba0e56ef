-- ===== src/Bookings/Capacity.antt =====
-- No slot has more occupying bookings than places, and nobody holds two places of a slot.
use dream_fly_backend.Prelude.{
  ◌≤◌, ◌≡◌, refl, sym, ◌∙◌, pos, ◌≤ℤ◌, leb_ℤ, String, Bool, false, ◌&&◌, Option, some, List, [],
  ◌∷◌, arith, count, find, any-count, count-snoc, ◌==◌, ==_iff, Bool-cases, inl, inr,
}
use dream_fly_backend.Base.{Uuid}
use dream_fly_backend.Bookings.Booked.{IsBooked}
use dream_fly_backend.Bookings.Model.{Booking, TimeSlot}
use dream_fly_backend.Bookings.Occupancy.{
  is_slot, occupies, holds_slot, cancel_held, is_held, cancel_row, new_booking,
}
use dream_fly_backend.Bookings.Outcome.{create_booking-Outcome, cancel_booking-Outcome}
use dream_fly_backend.Bookings.Released.{IsReleased}
use dream_fly_backend.Bookings.Service.{create_booking, cancel_booking}
use dream_fly_backend.Db.{Db, Notice}
use dream_fly_backend.Extractors.Auth.{AuthUser}
use dream_fly_backend.Orders.Checkout.{deliver}
use dream_fly_backend.StudioClock.{StudioNow}

-- At most as many occupying bookings as places, in every slot, and one per user and slot.
pub record IsFitting (db : Db) : Type 0 where
  pub fits :
      (slot : Uuid) (found : TimeSlot)
      → find (is_slot slot) db.time_slots ≡ some found
      → pos (count (occupies slot) db.bookings) ≤ℤ found.capacity
  pub single : (user slot : Uuid) → count (holds_slot user slot) db.bookings ≤ 1

pub data Request : Type 0 where
  book : StudioNow → (user slot : Uuid) → (text correlation : Option String) → Request
  cancel : StudioNow → AuthUser → (id : Uuid) → Option String → Request

abbrev pub serve : Request → Db → Db
serve (book at user slot text correlation) db = (create_booking at user slot text correlation db).1
serve (cancel at auth id correlation) db = (cancel_booking at auth id correlation db).1

abbrev pub serve_all : List Request → Db → Db
serve_all [] db = db
serve_all (r ∷ rs) db = serve_all rs (serve r db)

cancel_held-count :
    (id : Uuid) (q : Booking → Bool) (bs : List Booking)
    → ((b : Booking) → q (cancel_row b) ≡ false)
    → count q (cancel_held id bs) ≤ count q bs
unfolding cancel_held
cancel_held-count id q [] h = omega arith
cancel_held-count id q (b ∷ bs) h = elim (Bool-cases (is_held id b)) [
  | inl hit ↦ rw (hit, h b) (omega (arith, cancel_held-count id q bs h))
  | inr miss ↦ rw miss (omega (arith, cancel_held-count id q bs h))
]

IsReleased-IsFitting :
    (at : StudioNow) (auth : AuthUser) (id : Uuid) (correlation : Option String) (b : Booking)
    (db db' : Db)
    → IsReleased at auth id correlation b db db'
    → IsFitting db
    → IsFitting db'
IsReleased-IsFitting at auth id correlation b db db' r h = rw r.state record {
  fits = λ slot found listed. omega (
    arith,
    h.fits slot found listed,
    cancel_held-count id (occupies slot) db.bookings (λ x. refl),
  );
  single = λ user slot. omega (
    arith,
    h.single user slot,
    cancel_held-count id (holds_slot user slot) db.bookings (λ x. refl),
  );
}

IsBooked-IsFitting :
    (at : StudioNow) (user slot : Uuid) (text correlation : Option String) (b : Booking)
    (db db' : Db)
    → IsBooked at user slot text correlation b db db'
    → IsFitting db
    → IsFitting db'
IsBooked-IsFitting at user slot text correlation b db db' d h =
    rw (d.state, d.row)
      record {
        fits = λ j found listed.
            let sum = count-snoc (occupies j) row db.bookings in
            let old = h.fits j found listed in
            elim (Bool-cases (d.found.id == j)) [
              | inl mine ↦
                  let same : slot ≡ j = sym d.named ∙ (==_iff d.found.id j).0 mine in
                  let found_same : d.found ≡ found = (let l = rw same at d.listed in cc) in
                  let room : leb_ℤ found.capacity (pos (count (occupies j) db.bookings)) ≡ false =
                    rw (← found_same, ← same) d.room in
                  ground (arith, sum, mine, room)
              | inr other ↦ ground (arith, sum, other, old)
            ];
        single = λ u j.
            let sum = count-snoc (holds_slot u j) row db.bookings in
            let old = h.single u j in
            let none_yet = any-count (holds_slot user slot) db.bookings d.absent in
            elim (Bool-cases ((user == u) && (d.found.id == j))) [
              | inl mine ↦
                  let who : user ≡ u = (==_iff user u).0 (ground (arith, mine)) in
                  let what : slot ≡ j =
                    sym d.named ∙ (==_iff d.found.id j).0 (ground (arith, mine)) in
                  let before : count (holds_slot u j) db.bookings ≡ 0 =
                    rw (← who, ← what) none_yet in
                  ground (arith, sum, mine, before)
              | inr other ↦ ground (arith, sum, other, old)
            ];
      }
  where
    row : Booking
    row = new_booking (db.uuids db.drawn) (record { slot = d.found }) user text

delivered : (notice : Notice) (db : Db) → IsFitting db → IsFitting (deliver notice db)
unfolding deliver
delivered notice db h = record { fits = h.fits; single = h.single }

serve-IsFitting : (r : Request) (db : Db) → IsFitting db → IsFitting (serve r db)
serve-IsFitting (book at user slot text correlation) db h =
    elim (create_booking-Outcome at user slot text correlation db) [
      | inl (e, r) ↦ rw (r, serve) h
      | inr (b, db', d, r) ↦
          rw (r, serve)
            (delivered _ db' (IsBooked-IsFitting at user slot text correlation b db db' d h))
    ]
serve-IsFitting (cancel at auth id correlation) db h =
    elim (cancel_booking-Outcome at auth id correlation db) [
      | inl (e, r) ↦ rw (r, serve) h
      | inr (b, db', d, r) ↦
          rw (r, serve) (delivered _ db' (IsReleased-IsFitting at auth id correlation b db db' d h))
    ]

-- Whatever bookings and cancellations are served, from a state in which every slot has at most as
-- many occupying bookings as places and nobody holds two of one slot, the state stays so.
pub serve_all-IsFitting : (rs : List Request) (db : Db) → IsFitting db → IsFitting (serve_all rs db)
serve_all-IsFitting [] db h = h
serve_all-IsFitting (r ∷ rs) db h = serve_all-IsFitting rs (serve r db) (serve-IsFitting r db h)

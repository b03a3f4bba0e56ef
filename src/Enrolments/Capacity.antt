-- ===== src/Enrolments/Capacity.antt =====
-- No course has more active enrolments than places, and nobody is enrolled twice.
use dream_fly_backend.Prelude.{
  ◌+◌, ◌≤◌, ◌≡◌, refl, ◌∙◌, ℤ, pos, ◌≤ℤ◌, leb_ℤ, Bool, false, ◌&&◌, Option, some, List, [], ◌∷◌,
  ◌++◌, arith, count, any, any-count, count-snoc, ◌==◌, ==_iff, Bool-cases, inl, inr, Option-cases,
}
use dream_fly_backend.Base.{Uuid, Instant}
use dream_fly_backend.Courses.SeatQueries.{
  find_course, max_students_of, count_active, course_seats_tx, seats_with,
}
use dream_fly_backend.Courses.Seats.{CourseLocks, CourseSeats, is_full}
use dream_fly_backend.Db.{
  Db, Same, Keeps, but_seats, IsFrame, committed, query-then, some_or-then, reject_if-then,
  >>=-committed, query_or-committed, done,
}
use dream_fly_backend.Enrolments.Model.{Enrolment, is_active}
use dream_fly_backend.Enrolments.Repository.{
  holds_seat, insert_tx, exists_active_tx, new_enrolment, cancel_where, cancel_row,
}
use dream_fly_backend.Enrolments.Service.{enrol_one_tx}

abbrev pub in_course : Uuid → Enrolment → Bool
in_course course e = is_active e.status && e.course_id == course

-- Every course has at most as many active enrolments as places.
abbrev pub IsSeated : Db → Type 0
IsSeated db =
    (course : Uuid) (max : ℤ)
    → max_students_of (find_course course db) ≡ some max
    → pos (count (in_course course) db.enrolments) ≤ℤ max

-- Nobody has two active enrolments in one course.
abbrev pub IsUnique : Db → Type 0
IsUnique db = (user course : Uuid) → count (holds_seat user course) db.enrolments ≤ 1

pub cancel_where-count :
    (p q : Enrolment → Bool) (es : List Enrolment)
    → ((e : Enrolment) → q (cancel_row e) ≡ false)
    → count q (cancel_where p es) ≤ count q es
unfolding cancel_where
cancel_where-count p q [] h = omega arith
cancel_where-count p q (e ∷ es) h = elim (Bool-cases (p e)) [
  | inl hit ↦ rw (hit, h e) (omega (arith, cancel_where-count p q es h))
  | inr miss ↦ rw miss (omega (arith, cancel_where-count p q es h))
]

-- What a committed `enrol_one_tx` has found and written.
pub record IsEnrolled (user course order : Uuid) (now : Instant) (e : Enrolment) (db db' : Db)
    : Type 0 where
  pub max : ℤ
  pub listed : max_students_of (find_course course db) ≡ some max
  pub room : leb_ℤ max (pos (count (in_course course) db.enrolments)) ≡ false
  pub absent : any (holds_seat user course) db.enrolments ≡ false
  pub row : e ≡ new_enrolment (db.uuids db.drawn) user course order now
  pub state : db' ≡ record db { enrolments = db.enrolments ++ e ∷ []; drawn = db.drawn + 1 }

insert_tx-state :
    (user course order : Uuid) (now : Instant) (db : Db) {e : Enrolment} {db' : Db}
    → insert_tx user course order now db ≡ done e db'
    → (any (holds_seat user course) db.enrolments ≡ false)
      × (e ≡ new_enrolment (db.uuids db.drawn) user course order now)
      × (db' ≡ record db { enrolments = db.enrolments ++ e ∷ []; drawn = db.drawn + 1 })
unfolding insert_tx
insert_tx-state user course order now db h =
    elim (Bool-cases (any (holds_seat user course) db.enrolments)) [
      | inl twice ↦ absurd (ground (arith, twice))
      | inr absent ↦ (absent, ground (arith, absent), ground (arith, absent))
    ]

course_seats_tx-state :
    (locks : CourseLocks) (course : Uuid) (db : Db) {s : Option CourseSeats} {db' : Db}
    → course_seats_tx locks course db ≡ committed s db'
    → (s ≡ seats_with (max_students_of (find_course course db)) (count_active course db))
      × (db' ≡ db)
unfolding course_seats_tx
course_seats_tx-state locks course db e =
    let (covered, e₁) = reject_if-then _ _ _ db e in
    let (max, db₁, m, e₂) = query-then _ _ _ db e₁ in
    let (active, db₂, n, e₃) = query-then _ _ _ db₁ e₂ in
    let stay : db₁ ≡ db = cc in
    let most : max ≡ max_students_of (find_course course db) = cc in
    let counted : active ≡ count_active course db = rw (← stay) cc in
    (rw (← most, ← counted) cc, cc)

pub enrol_one_tx-IsEnrolled :
    (locks : CourseLocks) (user course order : Uuid) (now : Instant) (db : Db) {e : Enrolment}
    {db' : Db}
    → enrol_one_tx locks user course order now db ≡ committed e db'
    → IsEnrolled user course order now e db db'
unfolding enrol_one_tx exists_active_tx count_active is_full
enrol_one_tx-IsEnrolled locks user course order now db {e} {db'} h =
    let (found, db₁, look, h₁) = >>=-committed _ _ db h in
    let (seen, same) = course_seats_tx-state locks course db look in
    let (seats, is, h₂) = some_or-then _ _ _ db₁ h₁ in
    let (room, h₃) = reject_if-then _ _ _ db₁ h₂ in
    let (twice, db₂, read, h₄) = query-then _ _ _ db₁ h₃ in
    let (once, h₅) = reject_if-then _ _ _ db₂ h₄ in
    let same₂ : db₂ ≡ db = cc in
    let ins : insert_tx user course order now db₂ ≡ done e db' = query_or-committed _ _ db₂ h₅ in
    let (absent, row, state) = insert_tx-state user course order now db (rw same₂ at ins) in
    elim (Option-cases (max_students_of (find_course course db))) [
      | inl missing ↦ absurd (ground (arith, missing, seen, is))
      | inr (max, listed) ↦ record {
        max = max;
        listed = listed;
        room = ground (arith, listed, seen, is, room);
        absent = absent;
        row = row;
        state = state;
      }
    ]

-- The region that is written, and the two properties.
abbrev pub Seats : Db → Db → Type 0
Seats db db' = Same but_seats db db' × Keeps IsSeated db db' × Keeps IsUnique db db'

pub Seats-IsFrame : IsFrame Seats
Seats-IsFrame = record {
  stay = λ db. (refl, λ h. h, λ h. h);
  go = λ a b c p q. (q.0 ∙ p.0, λ h. q.1 (p.1 h), λ h. q.2 (p.2 h));
}

pub IsEnrolled-IsSeated :
    (user course order : Uuid) (now : Instant) (e : Enrolment) (db db' : Db)
    → IsEnrolled user course order now e db db'
    → IsSeated db
    → IsSeated db'
unfolding find_course
IsEnrolled-IsSeated user course order now e db db' d h =
    rw (d.state, d.row)
      λ j max listed.
        let old = h j max listed in
        let new = new_enrolment (db.uuids db.drawn) user course order now in
        let sum = count-snoc (in_course j) new db.enrolments in
        elim (Bool-cases (course == j)) [
          | inl mine ↦
              let same : course ≡ j = (==_iff course j).0 mine in
              let full : leb_ℤ max (pos (count (in_course j) db.enrolments)) ≡ false =
                let m : d.max ≡ max = let l = rw same at d.listed in cc in
                rw (← m, ← same) d.room in
              ground (arith, sum, mine, full)
          | inr other ↦ ground (arith, sum, other, old)
        ]

pub IsEnrolled-IsUnique :
    (user course order : Uuid) (now : Instant) (e : Enrolment) (db db' : Db)
    → IsEnrolled user course order now e db db'
    → IsUnique db
    → IsUnique db'
IsEnrolled-IsUnique user course order now e db db' d h =
    rw (d.state, d.row)
      λ u j.
        let old = h u j in
        let new = new_enrolment (db.uuids db.drawn) user course order now in
        let sum = count-snoc (holds_seat u j) new db.enrolments in
        let none_yet = any-count (holds_seat user course) db.enrolments d.absent in
        elim (Bool-cases ((user == u) && (course == j))) [
          | inl mine ↦
              let who : user ≡ u = (==_iff user u).0 (ground (arith, mine)) in
              let what : course ≡ j = (==_iff course j).0 (ground (arith, mine)) in
              let before : count (holds_seat u j) db.enrolments ≡ 0 = rw (← who, ← what) none_yet in
              ground (arith, sum, mine, before)
          | inr other ↦ ground (arith, sum, other, old)
        ]

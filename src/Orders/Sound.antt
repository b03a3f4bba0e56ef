-- ===== src/Orders/Sound.antt =====
-- The invariant of the shop's database, and which regions of it keep it.
pub mod Reads
pub mod Statements
pub mod Places
pub mod Refunds
use dream_fly_backend.Prelude.{◌≡◌, refl}
use dream_fly_backend.Courses.SeatQueries.{find_course}
use dream_fly_backend.Db.{
  Db, Same, Keeps, Keeps-IsFrame, IsFrame, Same-Keeps, but_points, but_products, but_seats,
  but_orders, Respects, Tx,
}
use dream_fly_backend.Enrolments.Capacity.{IsSeated, IsUnique, Seats}
use dream_fly_backend.Points.Repository.{find_balance}
use dream_fly_backend.Points.Service.Ledger.{IsSettled}
use dream_fly_backend.Products.Service.Stock.{IsStocked, Stocks}

-- Balances are the sums of their ledgers and not negative, no stock is negative, no course has more
-- active enrolments than places, and nobody is enrolled twice in one course.
pub record IsSound (db : Db) : Type 0 where
  pub settled : IsSettled db
  pub stocked : IsStocked db
  pub seated : IsSeated db
  pub unique : IsUnique db

abbrev pub Sound : Db → Db → Type 0
Sound = Keeps IsSound

pub Sound-IsFrame : IsFrame Sound
Sound-IsFrame = Keeps-IsFrame IsSound

pub but_orders-Sound : (db db' : Db) → Same but_orders db db' → Sound db db'
unfolding find_balance find_course
but_orders-Sound db db' e h = record {
  settled = Same-Keeps but_orders IsSettled (λ d p. p) (λ d p. p) db db' e h.settled;
  stocked = Same-Keeps but_orders IsStocked (λ d p. p) (λ d p. p) db db' e h.stocked;
  seated = Same-Keeps but_orders IsSeated (λ d p. p) (λ d p. p) db db' e h.seated;
  unique = Same-Keeps but_orders IsUnique (λ d p. p) (λ d p. p) db db' e h.unique;
}

pub Stocks-Sound : (db db' : Db) → Stocks db db' → Sound db db'
unfolding find_balance find_course
Stocks-Sound db db' (e, k) h = record {
  settled = Same-Keeps but_products IsSettled (λ d p. p) (λ d p. p) db db' e h.settled;
  stocked = k h.stocked;
  seated = Same-Keeps but_products IsSeated (λ d p. p) (λ d p. p) db db' e h.seated;
  unique = Same-Keeps but_products IsUnique (λ d p. p) (λ d p. p) db db' e h.unique;
}

pub Seats-Sound : (db db' : Db) → Seats db db' → Sound db db'
unfolding find_balance find_course
Seats-Sound db db' (e, k, l) h = record {
  settled = Same-Keeps but_seats IsSettled (λ d p. p) (λ d p. p) db db' e h.settled;
  stocked = Same-Keeps but_seats IsStocked (λ d p. p) (λ d p. p) db db' e h.stocked;
  seated = k h.seated;
  unique = l h.unique;
}

pub points-Sound : (db db' : Db) → Same but_points db db' → Keeps IsSettled db db' → Sound db db'
unfolding find_balance find_course
points-Sound db db' e k h = record {
  settled = k h.settled;
  stocked = Same-Keeps but_points IsStocked (λ d p. p) (λ d p. p) db db' e h.stocked;
  seated = Same-Keeps but_points IsSeated (λ d p. p) (λ d p. p) db db' e h.seated;
  unique = Same-Keeps but_points IsUnique (λ d p. p) (λ d p. p) db db' e h.unique;
}

-- ===== src/Tests.antt =====
-- A small shop on which the theorems are run: a member with points, a product, a course, a coupon.
pub mod Opened
pub mod Points
pub mod Prices
pub mod Checkouts
pub mod Records
pub mod Kafka
pub mod Studio
pub mod Auth
pub mod Rewards
use dream_fly_backend.Prelude.{
  ℕ, ◌+◌, ℤ, pos, negsuc, String, true, false, Option, none, some, List, [], ◌∷◌,
}
use dream_fly_backend.Base.{Instant}
use dream_fly_backend.Cart.Model.{CartItem, LineTarget, CheckoutLine}
use dream_fly_backend.Coupons.Model.{Coupon}
use dream_fly_backend.Courses.Model.{Course}
use dream_fly_backend.Db.{Db, UserRow}
use dream_fly_backend.Points.Model.{LedgerRow, PointReason}
use dream_fly_backend.Products.Model.{Product, ProductType}

abbrev pub noon : Instant
noon = pos 1_764_158_400_000_000

abbrev pub member : UserRow
member = record { id = 1; points_balance = pos 1_000; is_active = true; roles = "member" ∷ [] }

abbrev pub gift : LedgerRow
gift = record {
  user_id = 1;
  delta = pos 1_000;
  reason = PointReason.admin_adjust;
  order_id = none;
  created_at = pos 0;
}

-- Ten sessions a unit, with three units in stock.
abbrev pub pass : Product
pass = record {
  id = 20;
  name = "Ten rides";
  product_type = ProductType.ticket;
  price_cents = pos 50_000;
  stock = some (pos 3);
  valid_days = none;
  session_count = some (pos 10);
  is_active = true;
}

abbrev pub trapeze : Course
trapeze = record {
  id = 30;
  name = "Trapeze";
  price_cents = pos 120_000;
  max_students = pos 2;
  is_active = true;
  coach_id = none;
}

abbrev pub ten_off : Coupon
ten_off = record {
  id = 40;
  code = "TEN";
  discount_cents = pos 1_000;
  is_active = true;
  expires_at = none;
}

abbrev pub pass_line : CartItem
pass_line = record { id = 50; user_id = 1; target = LineTarget.product 20; quantity = pos 2 }

abbrev pub course_line : CartItem
course_line = record { id = 51; user_id = 1; target = LineTarget.course 30; quantity = pos 1 }

abbrev pub shop : Db
shop = record {
  users = member ∷ [];
  products = pass ∷ [];
  courses = trapeze ∷ [];
  course_sessions = [];
  coupons = ten_off ∷ [];
  cart_items = pass_line ∷ course_line ∷ [];
  orders = [];
  order_items = [];
  point_ledger = gift ∷ [];
  enrolments = [];
  leave_requests = [];
  attendance_records = [];
  schedule_slots = [];
  coaches = [];
  waitlist_entries = [];
  time_slots = [];
  bookings = [];
  rewards = [];
  reward_redemptions = [];
  conversations = [];
  messages = [];
  refresh_tokens = [];
  subscriptions = [];
  order_idempotency = [];
  outbox = [];
  notifications = [];
  uuids = λ n. 1_000 + n;
  drawn = 0;
}

abbrev pub lines : List CheckoutLine
lines =
    record {
      target = LineTarget.product 20;
      quantity = pos 2;
      price_cents = pos 50_000;
      name = "Ten rides";
      is_active = true;
    }
    ∷ record {
      target = LineTarget.course 30;
      quantity = pos 1;
      price_cents = pos 120_000;
      name = "Trapeze";
      is_active = true;
    }
    ∷ []

-- ===== src/Orders/Sound/Places.antt =====
-- A checkout keeps the invariant, whatever its outcome.
use dream_fly_backend.Prelude.{String, Option}
use dream_fly_backend.Base.{Uuid, Instant}
use dream_fly_backend.AppError.{SqlxError}
use dream_fly_backend.Db.{Db}
use dream_fly_backend.Orders.Checkout.{checkout}
use dream_fly_backend.Orders.Frame.Checkouts.{checkout-Respects}
use dream_fly_backend.Orders.Idempotency.{IdempotencyKey}
use dream_fly_backend.Orders.Request.{CheckoutRequest}
use dream_fly_backend.Orders.Sound.{IsSound}
use dream_fly_backend.Orders.Sound.Statements.{Sound-IsShop}

module _ (upper : String → String) (stamp : Instant → String) where
  -- A checkout, whatever its answer, keeps the invariant: every balance is the sum of its user's
  -- ledger and not negative, no stock is negative, no course has more active enrolments than places,
  -- and nobody is enrolled twice in one course.
  pub checkout-IsSound :
      (user : Uuid) (key : Option IdempotencyKey) (req : CheckoutRequest)
      (correlation : Option String) (now : Instant) (unread : Option SqlxError) (before db : Db)
      → IsSound db
      → IsSound (checkout upper stamp user key req correlation now unread before db).1
  checkout-IsSound user key req correlation now unread before db h =
      checkout-Respects Sound-IsShop upper stamp user key req correlation now unread before db h

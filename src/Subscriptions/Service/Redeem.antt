-- ===== src/Subscriptions/Service/Redeem.antt =====
-- src/modules/subscriptions/service.rs: redeeming one session.
use dream_fly_backend.Prelude.{ℤ, String, Bool, true, false, Option, none, some}
use dream_fly_backend.Base.{Uuid, Instant}
use dream_fly_backend.AppError.{not_found, conflict, plain}
use dream_fly_backend.Db.Pool.{Pool, ◌>>=◌, ◌>>◌, pure, raise, some_or, query, reject_if}
use dream_fly_backend.Subscriptions.Model.{Subscription}
use dream_fly_backend.Subscriptions.Repository.{redeem_one_session, product_name, find_by_id}

abbrev pub is_none : Option ℤ → Bool
is_none none = true
is_none (some n) = false

-- The answer: the row that the statement returned, and the product's name.
abbrev answer : Uuid → Option Subscription → Pool (Subscription × String)
answer id (some sub) = do name ← query (product_name sub.product_id); pure (sub, name)
answer id none = do
  found ← query (find_by_id id)
  current ← some_or found (not_found (plain "subscription not found"))
  reject_if (is_none current.remaining_sessions)
      (conflict (plain "subscription has no session quota"))
  raise (conflict (plain "subscription is not redeemable"))

unfoldable pub redeem : Instant → Uuid → Pool (Subscription × String)
redeem clock id = do updated ← query (redeem_one_session clock id); answer id updated

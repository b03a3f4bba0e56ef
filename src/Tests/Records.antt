-- ===== src/Tests/Records.antt =====
-- Locks, keys, pages and entitlements at concrete inputs.
use mathlib.Core.List.{Perm}
use dream_fly_backend.Prelude.{
  find, ◌≡◌, refl, ◌*◌, ◌-◌, ◌≤◌, pos, none, some, List, [], ◌∷◌, arith, map, All, IsSorted, trim,
  ◌↔◌, ◌==◌, if◌then◌else◌,
}
use dream_fly_backend.AppError.{ok}
use dream_fly_backend.Base.{Uuid}
use dream_fly_backend.Extractors.Pagination.{PaginationParams, limit, offset}
use dream_fly_backend.Extractors.Pagination.Bounds.{offset-exact}
use dream_fly_backend.Orders.Idempotency.{IdempotencyKey, parse}
use dream_fly_backend.Orders.Idempotency.Keys.{parse-ok, IsKeyText}
use dream_fly_backend.Products.Locks.{ProductLocks, pair_key}
use dream_fly_backend.Products.Locks.Order.{rows_in_lock_order-IsSorted, IsPaired}
use dream_fly_backend.Products.Model.{Product}
use dream_fly_backend.Subscriptions.Entitlement.{EntitlementGrant}
use dream_fly_backend.Subscriptions.Sessions.{plan_sessions, redeem_row-find, Takes}
use dream_fly_backend.Subscriptions.Model.{Subscription, SubscriptionStatus}
use dream_fly_backend.Subscriptions.Repository.{is_subscription, redeem_row}
use dream_fly_backend.Tests.{pass, noon}
use dream_fly_backend.Tests.Opened.{opened}

abbrev mug : Product
mug = record pass { id = 10 }

abbrev locks : ProductLocks
locks = record { rows = mug ∷ pass ∷ [] }

abbrev same : Uuid → Uuid
same id = id

abbrev pairs : List (Product × Uuid)
pairs = (mug, 10) ∷ (pass, 20) ∷ []

rows_in_lock_order-IsSorted_example :
    IsSorted pair_key pairs
    × Perm (map (λ p. p.1) pairs) (20 ∷ 10 ∷ [])
    × All (IsPaired locks same) pairs
unfolding opened
rows_in_lock_order-IsSorted_example =
    rows_in_lock_order-IsSorted locks same (20 ∷ 10 ∷ []) {pairs = pairs} refl

abbrev key : IdempotencyKey
key = record { key = "k-1" }

parse-ok_example :
    (parse " k-1 " ≡ ok key)
    ↔ (("k-1" ≡ trim " k-1 ") × IsKeyText (trim " k-1 ") × (parse "k-1" ≡ ok key))
parse-ok_example = parse-ok " k-1 " key

abbrev third_page : PaginationParams
third_page = record { page = 3; per_page = 20 }

offset-exact_example :
    (1 ≤ limit third_page)
    × (limit third_page ≤ 100)
    × (offset third_page ≡ (3 - 1) * limit third_page)
offset-exact_example = offset-exact third_page (ground arith)

abbrev grant : EntitlementGrant
grant = record {
  total_sessions = some (pos 30);
  remaining_sessions = some (pos 30);
  expires_at = none;
}

plan_sessions_example :
    (some (pos 30) ≡ some (pos (10 * 3))) × (some (pos 30) ≡ some (pos (10 * 3)))
unfolding opened
plan_sessions_example = plan_sessions pass 10 3 noon {g = grant} refl (ground arith) refl

abbrev rides : Subscription
rides = record {
  id = 60;
  user_id = 1;
  product_id = 20;
  order_id = some 7;
  status = SubscriptionStatus.active;
  started_at = pos 0;
  expires_at = none;
  total_sessions = some (pos 10);
  remaining_sessions = some (pos 4);
  price_cents = pos 50_000;
}

redeem_row-find_example :
    (s' : Subscription) × Takes noon rides s'
    × ((j : Uuid)
        → find (is_subscription j) (redeem_row noon 60 (rides ∷ []))
          ≡ (if 60 == j then some s' else find (is_subscription j) (rides ∷ [])))
redeem_row-find_example = redeem_row-find noon 60 (rides ∷ []) rides refl

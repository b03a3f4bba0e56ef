-- ===== src/Subscriptions/Repository.antt =====
-- src/modules/subscriptions/repository.rs: the statements on `subscriptions`.
use dream_fly_backend.Prelude.{
  ℕ, ◌+◌, ℤ, pos, ◌-ℤ◌, ltb_ℤ, leb_ℤ, String, Bool, true, false, not, ◌&&◌, ◌||◌, Option, none,
  some, List, [], ◌∷◌, ◌++◌, map, filter, find, count, ◌==◌, if◌then◌else◌,
}
use dream_fly_backend.Base.{Uuid, Instant}
use dream_fly_backend.AppError.{database, check_violation, other}
use dream_fly_backend.Db.{Sql, done, failed, select}
use dream_fly_backend.Products.Model.{Product}
use dream_fly_backend.Products.Repository.{find_product}
use dream_fly_backend.Subscriptions.Model.{
  Subscription, SubscriptionStatus, derived_status, active, cancelled,
}

abbrev violates : (ℤ → Bool) → Option ℤ → Bool
violates p none = false
violates p (some n) = p n

-- `CHECK (total_sessions > 0)` and `CHECK (remaining_sessions >= 0)`
abbrev pub is_refused : Option ℤ → Option ℤ → Bool
is_refused total remaining =
    violates (λ n. leb_ℤ n (pos 0)) total || violates (λ n. ltb_ℤ n (pos 0)) remaining

-- The columns that `insert_tx` is given.
pub record NewSubscription : Type 0 where
  pub user_id : Uuid
  pub product_id : Uuid
  pub order_id : Uuid
  pub expires_at : Option Instant
  pub total_sessions : Option ℤ
  pub remaining_sessions : Option ℤ
  pub price_cents : ℤ

abbrev pub new_subscription : Uuid → NewSubscription → Instant → Subscription
new_subscription id s now = record {
  id = id;
  user_id = s.user_id;
  product_id = s.product_id;
  order_id = some s.order_id;
  status = active;
  started_at = now;
  expires_at = s.expires_at;
  total_sessions = s.total_sessions;
  remaining_sessions = s.remaining_sessions;
  price_cents = s.price_cents;
}

unfoldable pub insert_tx : NewSubscription → Instant → Sql Subscription
insert_tx s now db =
    let row = new_subscription (db.uuids db.drawn) s now in
    if is_refused s.total_sessions s.remaining_sessions
    then failed (database check_violation none)
    else done row (record db { subscriptions = db.subscriptions ++ row ∷ []; drawn = db.drawn + 1 })

abbrev pub is_subscription : Uuid → Subscription → Bool
is_subscription id s = s.id == id

unfoldable pub find_by_id : Uuid → Sql (Option Subscription)
find_by_id id = select λ db. find (is_subscription id) db.subscriptions

abbrev pub is_of : Option Uuid → Uuid → Bool
is_of none order = false
is_of (some o) order = o == order

abbrev pub is_cancelled : SubscriptionStatus → Bool
is_cancelled cancelled = true
is_cancelled _ = false

abbrev pub is_open_of : Uuid → Subscription → Bool
is_open_of order s = is_of s.order_id order && not (is_cancelled s.status)

unfoldable pub cancel_subscriptions : (Subscription → Bool) → List Subscription → List Subscription
cancel_subscriptions p ss = map (λ s. if p s then record s { status = cancelled } else s) ss

unfoldable pub cancel_by_order_tx : Uuid → Sql ℕ
cancel_by_order_tx order db =
    done (count (is_open_of order) db.subscriptions)
      (record db { subscriptions = cancel_subscriptions (is_open_of order) db.subscriptions })

abbrev name_of : Option Product → Sql String
name_of none db = failed other
name_of (some p) db = done p.name db

unfoldable pub product_name : Uuid → Sql String
product_name id db = name_of (find_product id db) db

abbrev pub is_live : SubscriptionStatus → Bool
is_live active = true
is_live _ = false

abbrev has_sessions : Option ℤ → Bool
has_sessions none = false
has_sessions (some n) = ltb_ℤ (pos 0) n

-- The `WHERE` of the decrement; `clock` is PostgreSQL's `now()`.
abbrev pub is_redeemable : Instant → Subscription → Bool
is_redeemable clock s =
    is_live (derived_status s.status s.expires_at s.remaining_sessions clock)
    && has_sessions s.remaining_sessions

abbrev minus_one : Option ℤ → Option ℤ
minus_one none = none
minus_one (some n) = some (n -ℤ pos 1)

abbrev pub redeemed : Subscription → Subscription
redeemed s = record s { remaining_sessions = minus_one s.remaining_sessions }

unfoldable pub redeem_row : Instant → Uuid → List Subscription → List Subscription
redeem_row clock id [] = []
redeem_row clock id (s ∷ ss) =
    if is_subscription id s && is_redeemable clock s
    then redeemed s ∷ ss
    else s ∷ redeem_row clock id ss

unfoldable pub redeem_one_session : Instant → Uuid → Sql (Option Subscription)
redeem_one_session clock id db =
    done
      (find (λ s. true)
        (map redeemed
          (filter (λ s. is_subscription id s && is_redeemable clock s) db.subscriptions)))
      (record db { subscriptions = redeem_row clock id db.subscriptions })

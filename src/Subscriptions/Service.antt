-- ===== src/Subscriptions/Service.antt =====
-- src/modules/subscriptions/service.rs, the part in the caller's transaction.
pub mod Redeem
use dream_fly_backend.Prelude.{ℕ, ℤ, Option, none, some}
use dream_fly_backend.Base.{Uuid, Instant}
use dream_fly_backend.Db.{Tx, ◌>>=◌, pure, query}
use dream_fly_backend.Points.Service.{BalanceLock}
use dream_fly_backend.Products.Model.{Product}
use dream_fly_backend.Subscriptions.Entitlement.{EntitlementGrant, plan}
use dream_fly_backend.Subscriptions.Model.{Subscription}
use dream_fly_backend.Subscriptions.Repository.{NewSubscription, insert_tx}
use dream_fly_backend.Subscriptions.Repository

-- What `grant_from_purchase_tx` writes for a grant, or for none.
abbrev pub insert_grant :
    BalanceLock → Product → ℤ → Uuid → Instant → Option EntitlementGrant → Tx (Option Subscription)
insert_grant buyer product price_cents order now none = pure none
insert_grant buyer product price_cents order now (some grant) = do
  subscription ← query (
      insert_tx
        (record {
          user_id = buyer.user_id;
          product_id = product.id;
          order_id = order;
          expires_at = grant.expires_at;
          total_sessions = grant.total_sessions;
          remaining_sessions = grant.remaining_sessions;
          price_cents = price_cents;
        })
        now)
  pure (some subscription)

unfoldable pub grant_from_purchase_tx :
    BalanceLock → Product → ℤ → ℤ → Uuid → Instant → Tx (Option Subscription)
grant_from_purchase_tx buyer product quantity price_cents order now =
    insert_grant buyer product price_cents order now (plan product quantity now)

unfoldable pub cancel_by_order_tx : Uuid → Tx ℕ
cancel_by_order_tx order = query (Repository.cancel_by_order_tx order)

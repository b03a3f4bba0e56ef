-- ===== src/Orders/Frame/Steps.antt =====
-- The loops over the lines and over the deltas.
use dream_fly_backend.Prelude.{Option, none, some, List, [], ◌∷◌}
use dream_fly_backend.Base.{Uuid, Instant}
use dream_fly_backend.Db.{
  Db, Respects, query-Respects, >>=-Respects, pure-Respects, some_or-Respects, IsFrame,
}
use dream_fly_backend.Orders.Fulfilment.{ProductFulfilment}
use dream_fly_backend.Orders.Placing.{grant_each}
use dream_fly_backend.Points.Model.{LedgerDelta}
use dream_fly_backend.Points.Service.{BalanceLock, apply_deltas_tx}
use dream_fly_backend.Products.Model.{Product}
use dream_fly_backend.Products.Service.{Reserved}
use dream_fly_backend.Subscriptions.Entitlement.{EntitlementGrant}
use dream_fly_backend.Subscriptions.Service.{grant_from_purchase_tx, insert_grant}
use dream_fly_backend.Orders.Frame.{IsShop}

module _ {R : Db → Db → Type 0} (shop : IsShop R) where
  frame : IsFrame R
  frame = shop.base

  insert_grant-Respects :
      (buyer : BalanceLock) (product : Product) (price : _) (order : Uuid) (now : Instant)
      (grant : Option EntitlementGrant)
      → Respects R (insert_grant buyer product price order now grant)
  insert_grant-Respects buyer product price order now none = pure-Respects frame none
  insert_grant-Respects buyer product price order now (some grant) =
      >>=-Respects frame (query-Respects frame _ _ (shop.grant _ now))
        (λ s. pure-Respects frame (some s))

  pub grant_each-Respects :
      (buyer : BalanceLock) (reserved : Reserved) (order : Uuid) (now : Instant)
      (ps : List ProductFulfilment)
      → Respects R (grant_each buyer reserved order now ps)
  unfolding grant_each grant_from_purchase_tx
  grant_each-Respects buyer reserved order now [] = pure-Respects frame tt
  grant_each-Respects buyer reserved order now (p ∷ ps) =
      >>=-Respects frame (some_or-Respects frame _ _) (λ product.
        >>=-Respects frame (insert_grant-Respects buyer product _ order now _)
          (λ s. grant_each-Respects buyer reserved order now ps))

  pub apply_deltas-Respects :
      (lock : BalanceLock) (lds : List LedgerDelta) (now : Instant)
      → Respects R (apply_deltas_tx lock lds now)
  unfolding apply_deltas_tx
  apply_deltas-Respects lock [] now = pure-Respects frame tt
  apply_deltas-Respects lock (ld ∷ lds) now =
      >>=-Respects frame (shop.delta lock ld now) (λ b. apply_deltas-Respects lock lds now)

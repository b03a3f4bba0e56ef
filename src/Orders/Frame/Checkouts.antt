-- ===== src/Orders/Frame/Checkouts.antt =====
-- Checkouts, whatever their outcome.
use dream_fly_backend.Prelude.{◌≡◌, refl, String, Option, none, some, List, [], ◌∷◌}
use dream_fly_backend.Base.{Uuid, Instant}
use dream_fly_backend.AppError.{Result, ok, err, SqlxError}
use dream_fly_backend.Cart.Model.{CheckoutLine}
use dream_fly_backend.Cart.Repository.{find_cart_items_for_checkout_tx}
use dream_fly_backend.Db.{
  Db, Respects, TxOut, committed, rolled_back, query-Respects, >>=-Respects, pure-Respects,
  lift-Respects, IsFrame, select-Respects,
}
use dream_fly_backend.Enrolments.Frames.{enrol_batch-Seats}
use dream_fly_backend.Orders.Checkout.{checkout, conclude, run_intent, after_replay}
use dream_fly_backend.Orders.Fulfilment.{PurchasableCart, plan}
use dream_fly_backend.Orders.Idempotency.{IdempotencyKey, Recorded, fresh, twin_won, replay}
use dream_fly_backend.Orders.Locks.{CheckoutLocks}
use dream_fly_backend.Orders.Model.{Order}
use dream_fly_backend.Orders.Placing.{
  Ending, placed, empty_cart, replayed, announce, place_order_tx, checkout_lines, checkout_tx,
}
use dream_fly_backend.Orders.Pricing.{PricingOutcome}
use dream_fly_backend.Orders.Request.{CheckoutIntent, CheckoutRequest, parse_request}
use dream_fly_backend.Orders.Responses.{OrderResponse}
use dream_fly_backend.Orders.Sound.Reads.{acquire_checkout_locks-Respects, load_coupon-Respects}
use dream_fly_backend.Products.Service.Stock.{reserve_stock_tx-Stocks}
use dream_fly_backend.Orders.Frame.{IsShop}
use dream_fly_backend.Orders.Frame.Steps.{grant_each-Respects, apply_deltas-Respects}

module _ {R : Db → Db → Type 0} (shop : IsShop R) where
  frame : IsFrame R
  frame = shop.base

  announce-Respects :
      (order : Order) (correlation : Option String) (r : Recorded)
      → Respects R (announce order correlation r)
  announce-Respects order correlation fresh =
      >>=-Respects frame (query-Respects frame _ _ (shop.event _)) (λ u. pure-Respects frame _)
  announce-Respects order correlation (twin_won user key) = pure-Respects frame _

  module _ (upper : String → String) (stamp : Instant → String) where
    place_order-Respects :
        (locks : CheckoutLocks) (key : Option IdempotencyKey) (intent : CheckoutIntent)
        (correlation : Option String) (now : Instant) (cart : PurchasableCart)
        (outcome : PricingOutcome)
        → Respects R (place_order_tx upper stamp locks key intent correlation now cart outcome)
    unfolding place_order_tx
    place_order-Respects locks key intent correlation now cart outcome =
        >>=-Respects frame
          (λ db r db' e. shop.stocks db db' (reserve_stock_tx-Stocks _ _ db r db' e))
          λ reserved. >>=-Respects frame (query-Respects frame _ _ shop.uuid) λ suffix.
            >>=-Respects frame (query-Respects frame _ _ (shop.create _)) λ order.
              >>=-Respects frame (query-Respects frame _ _ (shop.items order.id _ now)) λ items.
                >>=-Respects frame (apply_deltas-Respects shop locks.balance _ now) λ u.
                  >>=-Respects frame
                    (λ db r db' e. shop.seats db db' (enrol_batch-Seats _ _ _ _ _ db r db' e))
                    λ enrolments.
                      >>=-Respects frame
                        (grant_each-Respects shop locks.balance reserved order.id now
                          (plan cart).products)
                        λ v.
                          >>=-Respects frame
                            (query-Respects frame _ _ (shop.cart locks.balance.user_id))
                            λ w.
                              >>=-Respects frame (shop.key locks.balance key order.id)
                                λ recorded. announce-Respects order correlation recorded

    checkout_lines-Respects :
        (locks : CheckoutLocks) (key : Option IdempotencyKey) (intent : CheckoutIntent)
        (correlation : Option String) (now : Instant) (lines : List CheckoutLine)
        → Respects R (checkout_lines upper stamp locks key intent correlation now lines)
    unfolding checkout_lines
    checkout_lines-Respects locks key intent correlation now [] = pure-Respects frame _
    checkout_lines-Respects locks key intent correlation now (line ∷ lines) =
        >>=-Respects frame (lift-Respects frame _) λ cart.
          >>=-Respects frame (load_coupon-Respects frame upper stamp intent.coupon_code now)
            λ coupon.
              >>=-Respects frame (lift-Respects frame _)
                λ outcome. place_order-Respects locks key intent correlation now cart outcome

    pub checkout_tx-Respects :
        (user : Uuid) (key : Option IdempotencyKey) (intent : CheckoutIntent)
        (correlation : Option String) (now : Instant)
        → Respects R (checkout_tx upper stamp user key intent correlation now)
    unfolding checkout_tx find_cart_items_for_checkout_tx
    checkout_tx-Respects user key intent correlation now =
        >>=-Respects frame (acquire_checkout_locks-Respects frame user) λ locks.
          >>=-Respects frame (query-Respects frame _ _ (select-Respects frame _))
            λ lines. checkout_lines-Respects locks key intent correlation now lines

  module _ (upper : String → String) (stamp : Instant → String) where
    conclude-R :
        (unread : Option SqlxError) (key : Option IdempotencyKey) (db : Db) (r : TxOut Ending)
        → ((e : Ending) (db' : Db) → r ≡ committed e db' → R db db')
        → R db (conclude unread key db r).1
    conclude-R unread key db (rolled_back e) k = frame.stay db
    conclude-R unread key db (committed (empty_cart buyer) db') k = frame.stay db
    conclude-R unread key db (committed (replayed user twin) db') k = frame.stay db
    conclude-R none key db (committed (placed order) db') k =
        frame.go db db' _ (k (placed order) db' refl) (shop.notice _ db')
    conclude-R (some e) key db (committed (placed order) db') k =
        frame.go db db' _ (k (placed order) db' refl) (shop.notice _ db')

    run_intent-R :
        (user : Uuid) (key : Option IdempotencyKey) (correlation : Option String) (now : Instant)
        (unread : Option SqlxError) (db : Db) (intent : Result CheckoutIntent)
        → R db (run_intent upper stamp user key correlation now unread db intent).1
    run_intent-R user key correlation now unread db (err e) = frame.stay db
    run_intent-R user key correlation now unread db (ok intent) =
        conclude-R unread key db (checkout_tx upper stamp user key intent correlation now db)
          (λ e db' done.
            checkout_tx-Respects upper stamp user key intent correlation now db e db' done)

    pub checkout-Respects :
        (user : Uuid) (key : Option IdempotencyKey) (req : CheckoutRequest)
        (correlation : Option String) (now : Instant) (unread : Option SqlxError) (before db : Db)
        → R db (checkout upper stamp user key req correlation now unread before db).1
    unfolding checkout
    checkout-Respects user key req correlation now unread before db =
        answered (replay user key before)
      where
        answered :
            (r : Result (Option OrderResponse))
            → R db (after_replay upper stamp user key req correlation now unread db r).1
        answered (err e) = frame.stay db
        answered (ok (some response)) = frame.stay db
        answered (ok none) = run_intent-R user key correlation now unread db (parse_request req)

-- ===== src/Orders/Replay/Committed.antt =====
-- What a checkout that commits has recorded for its key.
use dream_fly_backend.Prelude.{◌≡◌, refl, ◌∙◌, String, Option, some, List, [], ◌∷◌}
use dream_fly_backend.Base.{Uuid, Instant}
use dream_fly_backend.Cart.Model.{CheckoutLine}
use dream_fly_backend.Cart.Repository.{find_cart_items_for_checkout_tx}
use dream_fly_backend.Db.{
  Db, Same-IsFrame, committed, >>=-committed, query-then, lift-then, new_uuid,
}
use dream_fly_backend.Orders.Fulfilment.{PurchasableCart}
use dream_fly_backend.Orders.Idempotency.{IdempotencyKey, record_key, find_idempotency}
use dream_fly_backend.Orders.Locks.{CheckoutLocks}
use dream_fly_backend.Orders.Placing.{
  Ending, empty_cart, place_order_tx, checkout_lines, checkout_tx,
}
use dream_fly_backend.Orders.Pricing.{PricingOutcome}
use dream_fly_backend.Orders.Replay.{IsFresh, create_order-found}
use dream_fly_backend.Orders.Replay.Later.{
  create_order_items-SameOrders, clear_cart-SameOrders, apply_deltas-SameOrders,
  enrol_batch-SameOrders, grant_each-SameOrders,
}
use dream_fly_backend.Orders.Request.{CheckoutIntent}
use dream_fly_backend.Orders.Sound.Reads.{acquire_checkout_locks-Respects, load_coupon-Respects}
use dream_fly_backend.Products.Service.Stock.{reserve_stock_tx-Stocks}
use dream_fly_backend.Orders.Replay.Endings.{
  IsFresh-next, new_uuid-next, EndsFor, recorded_at, acquire_checkout_locks-user,
}

module _ (upper : String → String) (stamp : Instant → String) where
  place_order-EndsFor :
      (locks : CheckoutLocks) (key : IdempotencyKey) (intent : CheckoutIntent)
      (correlation : Option String) (now : Instant) (cart : PurchasableCart)
      (outcome : PricingOutcome) (db : Db) (ending : Ending) {db' : Db}
      → IsFresh db
      → place_order_tx upper stamp locks (some key) intent correlation now cart outcome db
        ≡ committed ending db'
      → EndsFor locks.balance.user_id key ending db'
  unfolding place_order_tx record_key find_idempotency new_uuid
  place_order-EndsFor locks key intent correlation now cart outcome db ending {db'} h e =
      let (reserved, d₁, p₁, e₁) = >>=-committed _ _ db e in
      let stock = (reserve_stock_tx-Stocks _ _ db reserved d₁ p₁).0 in
      let (suffix, d₂, p₂, e₂) = query-then _ _ _ d₁ e₁ in
      let (order, d₃, p₃, e₃) = query-then _ _ _ d₂ e₂ in
      let (items, d₄, p₄, e₄) = query-then _ _ _ d₃ e₃ in
      let (u, d₅, p₅, e₅) = >>=-committed _ _ d₄ e₄ in
      let (enrolments, d₆, p₆, e₆) = >>=-committed _ _ d₅ e₅ in
      let (v, d₇, p₇, e₇) = >>=-committed _ _ d₆ e₆ in
      let (w, d₈, p₈, e₈) = query-then _ _ _ d₇ e₇ in
      let (r, d₉, p₉, e₉) = >>=-committed _ _ d₈ e₈ in
      let fresh₂ = IsFresh-next db d₁ d₂ stock (new_uuid-next d₁ d₂ p₂) h in
      let found = create_order-found _ d₂ fresh₂ p₃ in
      let same₄ = create_order_items-SameOrders order.id _ now d₃ items d₄ p₄ in
      let same₅ = apply_deltas-SameOrders locks.balance _ now d₄ u d₅ p₅ in
      let same₆ = enrol_batch-SameOrders _ _ _ _ _ d₅ enrolments d₆ p₆ in
      let same₇ = grant_each-SameOrders _ reserved order.id now _ d₆ v d₇ p₇ in
      let same₈ = clear_cart-SameOrders locks.balance.user_id d₇ w d₈ p₈ in
      let later = same₈ ∙ same₇ ∙ same₆ ∙ same₅ ∙ same₄ in
      recorded_at locks.balance.user_id key order ending correlation r d₃ d₈ d₉ db' found later p₉
        e₉

  pub checkout_tx-EndsFor :
      (user : Uuid) (key : IdempotencyKey) (intent : CheckoutIntent) (correlation : Option String)
      (now : Instant) (db : Db) (ending : Ending) {db' : Db}
      → IsFresh db
      → checkout_tx upper stamp user (some key) intent correlation now db ≡ committed ending db'
      → EndsFor user key ending db'
  unfolding checkout_tx checkout_lines find_cart_items_for_checkout_tx
  checkout_tx-EndsFor user key intent correlation now db ending {db'} h e =
      let (locks, d₁, p₁, e₁) = >>=-committed _ _ db e in
      let same₁ = acquire_checkout_locks-Respects (Same-IsFrame (λ d. d)) user db locks d₁ p₁ in
      let mine = acquire_checkout_locks-user user db p₁ in
      let (lines, d₂, p₂, e₂) = query-then _ _ _ d₁ e₁ in
      let same₂ : d₂ ≡ db = cc in
      let fresh : IsFresh d₂ = rw same₂ h in
      let recorded = lines_case locks lines d₂ fresh e₂ in rw mine at recorded
    where
      lines_case :
          (locks : CheckoutLocks) (lines : List CheckoutLine) (d : Db) {db' : Db}
          → IsFresh d
          → checkout_lines upper stamp locks (some key) intent correlation now lines d
            ≡ committed ending db'
          → EndsFor locks.balance.user_id key ending db'
      lines_case locks [] d h e = let is : ending ≡ empty_cart locks.balance = cc in rw is refl
      lines_case locks (line ∷ lines) d h e =
          let (cart, is, e₁) = lift-then _ _ d e in
          let (coupon, d₂, p₂, e₂) = >>=-committed _ _ d e₁ in
          let (outcome, priced, e₃) = lift-then _ _ d₂ e₂ in
          let same =
            load_coupon-Respects (Same-IsFrame (λ d. d)) upper stamp intent.coupon_code now d coupon
              d₂ p₂ in
          place_order-EndsFor locks key intent correlation now cart outcome d₂ ending (rw same h) e₃

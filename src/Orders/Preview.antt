-- ===== src/Orders/Preview.antt =====
-- The discount that a coupon's preview shows, and the one that checkout takes.
use dream_fly_backend.Prelude.{
  ◌≡◌, refl, ℤ, pos, ltb_ℤ, String, Bool, some, find, arith, Bool-cases, inl, inr,
}
use dream_fly_backend.Base.{Instant}
use dream_fly_backend.AppError.{ok, Result-cases}
use dream_fly_backend.Coupons.Model.{Coupon}
use dream_fly_backend.Coupons.Repository.{find_valid_by_code, is_valid, normalize_code}
use dream_fly_backend.Coupons.Service.{CouponValidateResponse, validate_coupon}
use dream_fly_backend.Db.{Db, committed, query-then, some_or-then}
use dream_fly_backend.Db.Pool as Pool
use dream_fly_backend.Orders.Fulfilment.{PurchasableCart}
use dream_fly_backend.Orders.Placing.{load_coupon}
use dream_fly_backend.Orders.Pricing.{
  PricingOutcome, price, coupon_discount, subtotal_from, settle, clamp_coupon_discount,
}

price-discount :
    (cart : PurchasableCart) (c : Coupon) (balance : ℤ) (u : Bool) {o : PricingOutcome}
    → price cart (some c) balance u ≡ ok o
    → (o.discount_cents ≡ coupon_discount (some c) o.subtotal_cents)
      × (o.applied_coupon_code ≡ some c.code)
unfolding price settle
price-discount cart c balance u {o} e = elim (Result-cases (subtotal_from (pos 0) cart.lines)) [
  | inl (s, fits) ↦
      let e' = rw fits at e in
      let same : o ≡ settle s (some c) balance u = cc e' in rw same (refl, refl)
  | inr (x, fails) ↦ let e' = rw fails at e in absurd (ground (arith, e'))
]

module _ (upper : String → String) (stamp : Instant → String) where
  loaded :
      (code : String) (now : Instant) (db : Db) {c : Coupon} {db' : Db}
      → load_coupon upper stamp (some code) now db ≡ committed (some c) db'
      → find (is_valid upper (normalize_code upper code) now) db.coupons ≡ some c
  unfolding find_valid_by_code
  loaded code now db {c} {db'} e =
      let (found, db₁, e₁, e₂) = query-then _ _ _ db e in
      let (coupon, e₃, e₄) = some_or-then _ _ _ db₁ e₂ in cc

  -- The preview of a coupon for a subtotal agrees with a checkout that loads the same code from the
  -- same state at the same time and prices a cart of that subtotal: the applied discount is the
  -- discount that is taken, and the code shown is the one that the order records.
  pub validate_coupon-price :
      (code : String) (now : Instant) (db db₁ db₂ : Db) (cart : PurchasableCart) (balance : ℤ)
      (u : Bool) {c : Coupon} {r : CouponValidateResponse} {o : PricingOutcome}
      → load_coupon upper stamp (some code) now db ≡ committed (some c) db₁
      → price cart (some c) balance u ≡ ok o
      → validate_coupon upper code (some o.subtotal_cents) now db ≡ (ok r, db₂)
      → (r.applied_discount_cents ≡ some o.discount_cents) × (some r.code ≡ o.applied_coupon_code)
  unfolding validate_coupon find_valid_by_code Pool.◌>>=◌ Pool.reject_if Pool.query_or Pool.some_or
      coupon_discount
  validate_coupon-price code now db db₁ db₂ cart balance u {c} {r} {o} load priced shown =
      let found = loaded code now db load in
      let (discount, recorded) = price-discount cart c balance u priced in
      elim (Bool-cases (ltb_ℤ o.subtotal_cents (pos 0))) [
        | inl below ↦ let shown' = rw below at shown in absurd (ground (arith, shown'))
        | inr above ↦
            let shown' = rw (above, found) at shown in
            let code_eq : r.code ≡ c.code = ground (arith, shown') in
            let applied_eq : r.applied_discount_cents
                ≡ some (clamp_coupon_discount c.discount_cents o.subtotal_cents) =
              ground (arith, shown') in
            (rw (applied_eq, discount) refl, rw (code_eq, recorded) refl)
      ]

-- ===== src/Orders/Fulfilment/Gate.antt =====
-- The purchasability gate and the split of a cart.
use Prim.Native.String.{◌++◌ as append}
use dream_fly_backend.Prelude.{
  ◌≡◌, refl, ap, String, true, false, Option, none, some, List, [], ◌∷◌, arith, map, all,
  Bool-cases, inl, inr, if◌then◌else◌,
}
use dream_fly_backend.Base.{Uuid}
use dream_fly_backend.AppError.{ok, err, validation, format, strs}
use dream_fly_backend.Cart.Model.{CheckoutLine, LineTarget, product_id, course_id}
use dream_fly_backend.Orders.Fulfilment.{
  PurchasableCart, plan_lines, plan, inactive_names, ensure_all_purchasable,
}

-- The names of the lines that are not active, in their order, in corner brackets.
abbrev pub delisted : List CheckoutLine → List String
delisted [] = []
delisted (line ∷ lines) = elim line.is_active [
  | true ↦ delisted lines
  | false ↦ append "「" (append line.name "」") ∷ delisted lines
]

inactive_names-eq : (lines : List CheckoutLine) → inactive_names lines ≡ delisted lines
unfolding inactive_names
inactive_names-eq [] = refl
inactive_names-eq (line ∷ lines) = elim (Bool-cases line.is_active) [
  | inl on ↦ rw on (inactive_names-eq lines)
  | inr off ↦ rw off (ap (append "「" (append line.name "」") ∷◌) (inactive_names-eq lines))
]

delisted-all :
    (lines : List CheckoutLine) → all (λ l. l.is_active) lines ≡ true → delisted lines ≡ []
delisted-all [] h = refl
delisted-all (line ∷ lines) h = ground (arith, delisted-all lines)

delisted-some :
    (lines : List CheckoutLine)
    → all (λ l. l.is_active) lines ≡ false
    → (name : String) × (names : List String) × (delisted lines ≡ name ∷ names)
delisted-some [] h = absurd (ground arith)
delisted-some (line ∷ lines) h = elim (Bool-cases line.is_active) [
  | inl on ↦ rw on (delisted-some lines (ground (arith, on)))
  | inr off ↦ rw off (_, _, refl)
]

-- The gate lets a cart pass, with its lines unchanged, if every line is active; if one is not, it
-- answers 422 with the names of exactly the lines that are not, in the order of the cart.
pub ensure_all_purchasable-eq :
    (lines : List CheckoutLine)
    → ensure_all_purchasable lines ≡ (
        if all (λ l. l.is_active) lines
        then ok (record { lines = lines })
        else err (validation (format "以下項目已下架,請先自購物車移除再結帳:{}" (strs (delisted lines) ∷ []))))
unfolding ensure_all_purchasable
ensure_all_purchasable-eq lines = elim (Bool-cases (all (λ l. l.is_active) lines)) [
  | inl on ↦ rw (on, inactive_names-eq lines, delisted-all lines on) refl
  | inr off ↦
      let (name, names, e) = delisted-some lines off in rw (off, inactive_names-eq lines, e) refl
]

abbrev pub targets : (LineTarget → Option Uuid) → List CheckoutLine → List Uuid
targets f [] = []
targets f (line ∷ lines) = elim (f line.target) [
  | none ↦ targets f lines
  | some id ↦ id ∷ targets f lines
]

-- A column of the lines that are for products.
abbrev pub of_products : {B : Type 0} → (CheckoutLine → B) → List CheckoutLine → List B
of_products f [] = []
of_products f (line ∷ lines) = elim (product_id line.target) [
  | none ↦ of_products f lines
  | some id ↦ f line ∷ of_products f lines
]

split :
    (lines : List CheckoutLine)
    → (map (λ p. p.product_id) (plan_lines lines).products ≡ targets product_id lines)
      × (map (λ p. p.quantity) (plan_lines lines).products ≡ of_products (λ l. l.quantity) lines)
      × (map (λ p. p.price_cents) (plan_lines lines).products
          ≡ of_products (λ l. l.price_cents) lines)
      × (map (λ p. p.name) (plan_lines lines).products ≡ of_products (λ l. l.name) lines)
      × ((plan_lines lines).course_ids ≡ targets course_id lines)
unfolding plan_lines product_id course_id
split [] = (refl, refl, refl, refl, refl)
split (line ∷ lines) = ground (arith, split lines)

-- The plan of a cart splits it in two, each part in the order of the cart: the product lines with
-- the product's id, the quantity, the price and the name of their cart line, and the course ids.
pub plan-targets :
    (cart : PurchasableCart)
    → (map (λ p. p.product_id) (plan cart).products ≡ targets product_id cart.lines)
      × (map (λ p. p.quantity) (plan cart).products ≡ of_products (λ l. l.quantity) cart.lines)
      × (map (λ p. p.price_cents) (plan cart).products
          ≡ of_products (λ l. l.price_cents) cart.lines)
      × (map (λ p. p.name) (plan cart).products ≡ of_products (λ l. l.name) cart.lines)
      × ((plan cart).course_ids ≡ targets course_id cart.lines)
unfolding plan
plan-targets cart = split cart.lines

-- ===== src/Orders/Pricing/Subtotal.antt =====
-- What the checked sum of `price` returns on lines whose price and quantity are not negative.
use dream_fly_backend.Prelude.{
  ℕ, ◌+◌, ◌*◌, ◌≤◌, ◌<◌, ◌≡◌, ℤ, pos, pos_part, ◌≤ℤ◌, List, [], ◌∷◌, arith, All, i64_half,
  check_word, nonneg_eq, add_pos, mul_pos, ltb, ap, ◌&&◌, if◌then◌else◌,
}
use dream_fly_backend.AppError.{ok, err}
use dream_fly_backend.Cart.Model.{CheckoutLine, checked_line_subtotal}
use dream_fly_backend.Orders.Pricing.{subtotal_from, total_overflow}

pub record IsPriced (line : CheckoutLine) : Type 0 where
  pub price_ge : pos 0 ≤ℤ line.price_cents
  pub quantity_ge : pos 0 ≤ℤ line.quantity

-- The exact value of a line and of a cart, with no machine word in sight.
abbrev pub line_value : CheckoutLine → ℕ
line_value line = pos_part line.price_cents * pos_part line.quantity

abbrev pub cart_value : List CheckoutLine → ℕ
cart_value [] = 0
cart_value (line ∷ lines) = line_value line + cart_value lines

line_subtotal-eq :
    (p q : ℤ)
    → pos 0 ≤ℤ p
    → pos 0 ≤ℤ q
    → checked_line_subtotal p q ≡ check_word i64_half (pos (pos_part p * pos_part q))
unfolding checked_line_subtotal
line_subtotal-eq p q h k =
    rw (nonneg_eq p h, nonneg_eq q k) (ap (check_word i64_half) (mul_pos (pos_part p) (pos_part q)))

-- One round of the loop, with both checks in the open.
subtotal_from-cons :
    (n : ℕ) (line : CheckoutLine) (lines : List CheckoutLine)
    → IsPriced line
    → subtotal_from (pos n) (line ∷ lines) ≡ (
        let rest = subtotal_from (pos (n + line_value line)) lines in
        if ltb (line_value line) i64_half && ltb (n + line_value line) i64_half
        then rest
        else err total_overflow)
unfolding subtotal_from check_word
subtotal_from-cons n line lines h =
    rw (line_subtotal-eq line.price_cents line.quantity h.price_ge h.quantity_ge)
      (ground (arith, add_pos n (line_value line)))

-- A subtotal that fits an `i64` is returned exactly.
pub subtotal_from-ok :
    (n : ℕ) (lines : List CheckoutLine)
    → All IsPriced lines
    → n + cart_value lines < i64_half
    → subtotal_from (pos n) lines ≡ ok (pos (n + cart_value lines))
subtotal_from-ok n [] h b = unfold subtotal_from in ap (λ m. ok (pos m)) (omega arith)
subtotal_from-ok n (line ∷ lines) (p, ps) b =
    ground
      (arith, subtotal_from-cons n line lines p, subtotal_from-ok (n + line_value line) lines ps)

-- One that does not fit is refused, wherever the overflow occurs.
pub subtotal_from-overflow :
    (n : ℕ) (lines : List CheckoutLine)
    → All IsPriced lines
    → n < i64_half
    → i64_half ≤ n + cart_value lines
    → subtotal_from (pos n) lines ≡ err total_overflow
subtotal_from-overflow n [] h k b = absurd (omega arith)
subtotal_from-overflow n (line ∷ lines) (p, ps) k b = ground (
  arith,
  subtotal_from-cons n line lines p,
  subtotal_from-overflow (n + line_value line) lines ps,
)

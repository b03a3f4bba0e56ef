-- ===== src/Orders/Request.antt =====
-- src/modules/orders/service.rs: the checkout request, and the number of an order.
use text.Mathlib.Text.{◌==◌ as str_eq}
use Prim.Native.String.{slice, ◌++◌ as append}
use dream_fly_backend.Prelude.{
  ℕ, zero, suc, ◌+◌, ◌/◌, ◌%◌, String, Bool, false, Option, none, some, [], ◌∷◌, find, trim,
  is_empty, if◌then◌else◌,
}
use dream_fly_backend.Base.{Uuid}
use dream_fly_backend.AppError.{Result, ok, ◌>>=◌, ok_or, validation, format, str}
use dream_fly_backend.Orders.Model.{payment_methods}

pub record CheckoutRequest : Type 0 where
  pub coupon_code : Option String
  pub use_points : Option Bool
  pub payment_method : Option String

pub record CheckoutIntent : Type 0 where
  pub payment_method : String
  pub coupon_code : Option String
  pub use_points : Bool

abbrev parse_payment : Option String → Result String
parse_payment none = ok "credit_card"
parse_payment (some m) =
    ok_or (find (λ p. str_eq p m) payment_methods)
      (validation (format "invalid payment method: {}" (str m ∷ [])))

abbrev non_empty : String → Option String
non_empty s = if is_empty s then none else some s

abbrev parse_coupon : Option String → Option String
parse_coupon none = none
parse_coupon (some s) = non_empty (trim s)

abbrev or_false : Option Bool → Bool
or_false none = false
or_false (some b) = b

unfoldable pub parse_request : CheckoutRequest → Result CheckoutIntent
parse_request req = do
  method ← parse_payment req.payment_method
  ok (record {
    payment_method = method;
    coupon_code = parse_coupon req.coupon_code;
    use_points = or_false req.use_points;
  })

-- `{:X}` of the last digits of a number.
unfoldable pub hex_digits : ℕ → ℕ → String
hex_digits zero n = ""
hex_digits (suc k) n =
    append (hex_digits k (n / 16)) (slice "0123456789ABCDEF" (n % 16) (n % 16 + 1))

-- `DF-{date}{suffix:08X}`; `date` is the studio's local day by the time zone database.
unfoldable pub order_number : String → Uuid → String
unfolding hex_digits
order_number date id = append "DF-" (append date (hex_digits 8 (id % 4_294_967_296)))

-- ===== src/Tests/Checkouts.antt =====
-- Checkouts of the shop's cart, run to their end.
use dream_fly_backend.Prelude.{
  any, false, List, [], ◌∷◌, ◌≡◌, refl, pos, String, true, none, some, [], arith, Bool-cases, inl,
  inr, ◌==◌, ◌⊎◌,
}
use dream_fly_backend.Base.{Instant}
use dream_fly_backend.AppError.{SqlxError, other, database_error, Result, ok, err}
use dream_fly_backend.Db.{TxOut, committed, rolled_back, Same, but_seats, Db}
use dream_fly_backend.Orders.Checkout.{checkout}
use dream_fly_backend.Orders.Idempotency.{IdempotencyKey}
use dream_fly_backend.Orders.Request.{CheckoutRequest}
use dream_fly_backend.Orders.Responses.{OrderResponse, assemble}
use dream_fly_backend.Orders.Atomic.{checkout-err}
use dream_fly_backend.Orders.Model.{Order, OrderStatus}
use dream_fly_backend.Orders.Sound.{IsSound}
use dream_fly_backend.Orders.Sound.Places.{checkout-IsSound}
use dream_fly_backend.Orders.Sound.Refunds.{update_order_status-IsSound}
use dream_fly_backend.Orders.Status.{compensate_order_artifacts_tx, update_order_status}
use dream_fly_backend.Orders.Twice.{checkout_twice, Act, buy, set_status, act_all}
use dream_fly_backend.Courses.SeatQueries.{find_course}
use dream_fly_backend.Tests.Points.{shop-IsSettled}
use dream_fly_backend.Enrolments.Capacity.{IsSeated, IsUnique}
use dream_fly_backend.Enrolments.Frames.{enrol_batch_keeps_places}
use dream_fly_backend.Enrolments.Model.{Enrolment}
use dream_fly_backend.Enrolments.Service.{enrol_batch_from_purchase_tx}
use dream_fly_backend.Orders.Effects.{compensate_cancels, still_enrolled, still_granted}
use dream_fly_backend.Tests.{shop, noon}
use dream_fly_backend.Tests.Opened.{opened}

abbrev upper : String → String
upper s = s

abbrev stamp : Instant → String
stamp t = "20261126"

abbrev key : IdempotencyKey
key = record { key = "k-1" }

abbrev request : CheckoutRequest
request = record {
  coupon_code = some " TEN ";
  use_points = some true;
  payment_method = some "line_pay";
}

abbrev plain_request : CheckoutRequest
plain_request = record { coupon_code = none; use_points = none; payment_method = none }

abbrev first : Result OrderResponse × Db
first = checkout upper stamp 1 (some key) request none noon none shop shop

abbrev no_order : Order
no_order = record {
  id = 0;
  user_id = 0;
  order_number = "";
  status = OrderStatus.pending;
  total_cents = pos 0;
  discount_cents = pos 0;
  coupon_code = none;
  points_used = pos 0;
  points_earned = pos 0;
  payment_method = none;
  paid_at = none;
  created_at = pos 0;
}

abbrev answer : Result OrderResponse → OrderResponse
answer (ok a) = a
answer (err e) = record { order = no_order; items = []; enrolments = []; subscriptions = [] }

-- The answer of the first checkout, and the shop it leaves.
abbrev receipt : OrderResponse
receipt = answer first.0

abbrev sold : Db
sold = first.1

first_total : receipt.order.total_cents ≡ pos 119_000
unfolding opened
first_total = refl

-- The order is completed and refunded, and bought anew without a key, before the retry.
abbrev meanwhile : List (Act upper stamp)
meanwhile =
    set_status receipt.order.id "completed" none noon none
    ∷ set_status receipt.order.id "refunded" none noon (some other)
    ∷ buy 1 none plain_request none noon none shop
    ∷ []

checkout_twice_example :
    (status : OrderStatus) × (checkout upper stamp 1
        (some key)
        plain_request
        none
        (pos 0)
        none
        (act_all upper stamp meanwhile sold)
        shop
      ≡ (
        ok (
            assemble
              (record receipt.order { status = status })
              (act_all upper stamp meanwhile sold)),
        shop,
      ))
    × (checkout upper stamp 1 (some key) plain_request none (pos 0) none sold shop
        ≡ (ok receipt, shop))
unfolding opened
checkout_twice_example =
    checkout_twice upper stamp 1 key request plain_request none none noon (pos 0) none none shop
      shop shop meanwhile {a = receipt} {db' = sold} (λ n le. refl) refl refl

shop-IsSound : IsSound shop
unfolding find_course
shop-IsSound = record {
  settled = shop-IsSettled;
  stocked = ground arith;
  seated = λ course max e. elim (Bool-cases (30 == course)) [
    | inl mine ↦ ground (arith, rw mine at e)
    | inr differs ↦ absurd (ground (arith, rw differs at e))
  ];
  unique = λ user course. ground arith;
}

checkout-IsSound_example : IsSound sold
checkout-IsSound_example =
    checkout-IsSound upper stamp 1 (some key) request none noon none shop shop shop-IsSound

sold-IsSound : IsSound sold
sold-IsSound =
    checkout-IsSound upper stamp 1 (some key) request none noon none shop shop shop-IsSound

update_order_status-IsSound_example :
    IsSound (update_order_status receipt.order.id "refunded" none noon none sold).1
update_order_status-IsSound_example =
    update_order_status-IsSound receipt.order.id "refunded" none noon none sold sold-IsSound

abbrev unread_sale : Result OrderResponse × Db
unread_sale = checkout upper stamp 1 (some key) request none noon (some other) shop shop

checkout-err_example :
    (unread_sale.1 ≡ shop)
    ⊎ ((failure : SqlxError) × (order : Order) × (some other ≡ some failure)
        × (database_error other ≡ database_error failure)
        × (checkout upper stamp 1 (some key) plain_request none (pos 0) none unread_sale.1 shop
            ≡ (ok (assemble order unread_sale.1), shop)))
unfolding opened
checkout-err_example =
    checkout-err upper stamp 1 key request plain_request none none noon (pos 0) (some other) none
      shop shop shop {x = database_error other} {db' = unread_sale.1} (λ n le. refl) refl

abbrev enrolled : TxOut (List Enrolment)
enrolled =
    enrol_batch_from_purchase_tx (record { ids = 30 ∷ [] })
      (record { user_id = 1; balance = pos 1_000 }) (30 ∷ []) 7 noon shop

abbrev enrolments_of : TxOut (List Enrolment) → List Enrolment
enrolments_of (committed es db) = es
enrolments_of (rolled_back e) = []

abbrev state_of : TxOut (List Enrolment) → Db
state_of (committed es db) = db
state_of (rolled_back e) = shop

enrol_batch_keeps_places_example :
    IsSeated (state_of enrolled)
    × IsUnique (state_of enrolled)
    × Same but_seats shop (state_of enrolled)
unfolding opened
enrol_batch_keeps_places_example =
    enrol_batch_keeps_places (record { ids = 30 ∷ [] })
      (record { user_id = 1; balance = pos 1_000 }) (30 ∷ []) 7 noon shop
      {es = enrolments_of enrolled} {db' = state_of enrolled} shop-IsSound.seated
      shop-IsSound.unique refl

abbrev compensated : TxOut Unit
compensated = compensate_order_artifacts_tx receipt.order noon sold

abbrev refunded_shop : Db
refunded_shop = elim compensated [ committed u db ↦ db | rolled_back e ↦ shop ]

compensate_cancels_example :
    (any (still_enrolled receipt.order.id) refunded_shop.enrolments ≡ false)
    × (any (still_granted receipt.order.id) refunded_shop.subscriptions ≡ false)
unfolding opened
compensate_cancels_example =
    compensate_cancels receipt.order noon sold {u = tt} {db' = refunded_shop} refl

-- ===== src/Orders/Twice.antt =====
-- A checkout that is repeated with its key answers the order of the first and changes nothing.
use dream_fly_backend.Prelude.{◌≡◌, refl, ap, String, Option, none, some, List, [], ◌∷◌, arith}
use dream_fly_backend.Base.{Uuid, Instant}
use dream_fly_backend.AppError.{AppError, Result, ok, err, bad_request, plain, SqlxError}
use dream_fly_backend.Db.{Db, order_placed, TxOut, committed, rolled_back}
use dream_fly_backend.Orders.Frame.Checkouts.{checkout-Respects}
use dream_fly_backend.Orders.Frame.Statuses.{update_order_status-Respects}
use dream_fly_backend.Orders.Frame.Kept.{IsKept, Kept-IsShop}
use dream_fly_backend.Orders.Model.{Order, OrderStatus}
use dream_fly_backend.Orders.Status.{update_order_status}
use dream_fly_backend.Orders.Checkout.{checkout, conclude, run_intent, deliver}
use dream_fly_backend.Orders.Idempotency.{
  IdempotencyKey, find_idempotency, replay, replay_by_key, replay_or, replay_twin, or_fail,
}
use dream_fly_backend.Orders.Placing.{Ending, placed, empty_cart, replayed}
use dream_fly_backend.Orders.Replay.{IsFresh}
use dream_fly_backend.Orders.Replay.Committed.{checkout_tx-EndsFor}
use dream_fly_backend.Orders.Replay.Named.{replay-IsKept, IsKept-replay}
use dream_fly_backend.Orders.Request.{CheckoutIntent, CheckoutRequest, parse_request}
use dream_fly_backend.Orders.Responses.{OrderResponse, assemble}
use dream_fly_backend.Orders.Replay.Endings.{EndsFor}

or_fail-ok :
    (x : AppError) (r : Result (Option OrderResponse)) {a : OrderResponse}
    → or_fail x r ≡ ok a
    → r ≡ ok (some a)
or_fail-ok x (ok none) e = ground (arith, e)
or_fail-ok x (ok (some b)) e = cc
or_fail-ok x (err y) e = ground (arith, e)

abbrev again : Result OrderResponse → Result (Option OrderResponse)
again (ok a) = ok (some a)
again (err e) = err e

module _ (upper : String → String) (stamp : Instant → String) where
  -- What `checkout` answers for an ending is what the key finds afterwards.
  conclude-replay :
      (user : Uuid) (key : IdempotencyKey) (unread : Option SqlxError) (db : Db) (r : TxOut Ending)
      {a : OrderResponse} {db' : Db}
      → ((e : Ending) (d : Db) → r ≡ committed e d → EndsFor user key e d)
      → conclude unread (some key) db r ≡ (ok a, db')
      → replay user (some key) db' ≡ ok (some a)
  unfolding replay replay_by_key replay_or replay_twin deliver find_idempotency
  conclude-replay user key unread db (rolled_back e) {a} {db'} k e' = ground (arith, e')
  conclude-replay user key unread db (committed (empty_cart buyer) d) {a} {db'} k e =
      let who : buyer.user_id ≡ user = k (empty_cart buyer) d refl in
      let state : db' ≡ db = cc in
      let answer : replay_or buyer (some key) (bad_request (plain "cart is empty")) db ≡ ok a =
        ap (λ p. p.0) e in
      rw (state, ← who) (or_fail-ok _ _ answer)
  conclude-replay user key unread db (committed (replayed u twin) d) {a} {db'} k e =
      let (who, what) = k (replayed u twin) d refl in
      let state : db' ≡ db = cc in
      let answer : replay_twin u twin db ≡ ok a = ap (λ p. p.0) e in
      rw (state, ← who, ← what) (or_fail-ok _ _ answer)
  conclude-replay user key (some x) db (committed (placed order) d) {a} {db'} k e =
      absurd (ground (arith, ap (λ p. p.0) e))
  conclude-replay user key none db (committed (placed order) d) {a} {db'} k e =
      let found = k (placed order) d refl in
      let after = deliver (order_placed order.user_id order.id order.order_number) d in
      let state : after ≡ db' = ap (λ p. p.1) e in
      let answer : ok (assemble order after) ≡ ok a = ap (λ p. p.0) e in
      rw (← state) (rw (found.by_key, found.by_id) (ap again answer))

  run_intent-replay :
      (user : Uuid) (key : IdempotencyKey) (correlation : Option String) (now : Instant)
      (unread : Option SqlxError) (db : Db) (intent : Result CheckoutIntent) {a : OrderResponse}
      {db' : Db}
      → IsFresh db
      → run_intent upper stamp user (some key) correlation now unread db intent ≡ (ok a, db')
      → replay user (some key) db' ≡ ok (some a)
  run_intent-replay user key correlation now unread db (err x) h e = ground (arith, e)
  run_intent-replay user key correlation now unread db (ok intent) h e =
      conclude-replay user key unread db _
        (λ ending d done.
          checkout_tx-EndsFor upper stamp user key intent correlation now db ending h done)
        e

  -- What other sessions, or this buyer, do to orders.
  pub data Act : Type 0 where
    buy :
        (user : Uuid)
        → Option IdempotencyKey
        → CheckoutRequest
        → Option String
        → Instant
        → Option SqlxError
        → (before : Db) → Act
    set_status : (order : Uuid) (text : String) → Option String → Instant → Option SqlxError → Act

  abbrev pub act : Act → Db → Db
  act (buy user key req correlation now unread before) db =
      (checkout upper stamp user key req correlation now unread before db).1
  act (set_status id text correlation now unread) db =
      (update_order_status id text correlation now unread db).1

  abbrev pub act_all : List Act → Db → Db
  act_all [] db = db
  act_all (a ∷ acts) db = act_all acts (act a db)

  act_all-IsKept :
      (user : Uuid) (key : IdempotencyKey) (order : Order) (acts : List Act) (db : Db)
      → IsKept user key order db
      → IsKept user key order (act_all acts db)
  act_all-IsKept user key order [] db k = k
  act_all-IsKept user key order (buy u l req correlation now unread before ∷ acts) db k =
      act_all-IsKept user key order acts _ (
        checkout-Respects (Kept-IsShop user key order) upper stamp u l req correlation now unread
          before db k)
  act_all-IsKept user key order (set_status id text correlation now unread ∷ acts) db k =
      act_all-IsKept user key order acts _ (
        update_order_status-Respects (Kept-IsShop user key order) id text correlation now unread db
          k)

  -- A checkout with a key that its first look has not found, if it answers an order, has recorded
  -- it: whatever checkouts and changes of status follow, by anyone, a later checkout of the same
  -- buyer with the same key, whatever its request, its time and the state under its lock, answers
  -- that order as its first look then finds it, with only its status possibly changed, and changes
  -- nothing; and right after the first one it answers the very same response. The ids that the
  -- database gives out next are assumed to be those of no order yet, and the reads of the later
  -- checkout's first look succeed.
  pub checkout_twice :
      (user : Uuid) (key : IdempotencyKey) (req req' : CheckoutRequest)
      (correlation correlation' : Option String) (now now' : Instant)
      (unread unread' : Option SqlxError) (before db later : Db) (acts : List Act)
      {a : OrderResponse} {db' : Db}
      → IsFresh db
      → replay user (some key) before ≡ ok none
      → checkout upper stamp user (some key) req correlation now unread before db ≡ (ok a, db')
      → (status : OrderStatus) × (checkout upper stamp user
            (some key)
            req'
            correlation'
            now'
            unread'
            (act_all acts db')
            later
          ≡ (ok (assemble (record a.order { status = status }) (act_all acts db')), later))
        × (checkout upper stamp user (some key) req' correlation' now' unread' db' later
            ≡ (ok a, later))
  unfolding checkout
  checkout_twice user key req req' correlation correlation' now now' unread unread' before db later
        acts {a} {db'} h none_yet e =
      let run = rw none_yet at e in
      let found = run_intent-replay user key correlation now unread db (parse_request req) h run in
      let k = act_all-IsKept user key a.order acts db' (replay-IsKept user key db' found) in
      (k.status, rw (IsKept-replay user key a.order (act_all acts db') k) refl, rw found refl)

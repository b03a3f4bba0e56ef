-- ===== src/Orders/Atomic.antt =====
-- What an error answer of a checkout means.
use dream_fly_backend.Prelude.{◌≡◌, ◌⊎◌, refl, sym, ap, arith, String, Option, none, some, inl, inr}
use dream_fly_backend.Base.{Uuid, Instant}
use dream_fly_backend.AppError.{AppError, SqlxError, Result, ok, err, database_error}
use dream_fly_backend.Db.{Db, TxOut, committed, rolled_back, order_placed}
use dream_fly_backend.Orders.Checkout.{checkout, conclude, run_intent, after_replay, deliver}
use dream_fly_backend.Orders.Idempotency.{IdempotencyKey, replay, replay_by_key, find_idempotency}
use dream_fly_backend.Orders.Model.{Order}
use dream_fly_backend.Orders.Placing.{Ending, placed, empty_cart, replayed}
use dream_fly_backend.Orders.Replay.{IsFresh}
use dream_fly_backend.Orders.Replay.Endings.{EndsFor}
use dream_fly_backend.Orders.Request.{CheckoutIntent, CheckoutRequest, parse_request}
use dream_fly_backend.Orders.Responses.{OrderResponse, assemble}
use dream_fly_backend.Orders.Replay.Committed.{checkout_tx-EndsFor}

-- The order has been placed and only its response could not be read: the key finds it.
pub record IsUnread (user : Uuid) (key : IdempotencyKey) (unread : Option SqlxError) (x : AppError)
    (db' : Db) : Type 0 where
  pub failure : SqlxError
  pub failed_read : unread ≡ some failure
  pub answered : x ≡ database_error failure
  pub order : Order
  pub found : replay user (some key) db' ≡ ok (some (assemble order db'))

abbrev Refused : Uuid → IdempotencyKey → Option SqlxError → AppError → Db → Db → Type 0
Refused user key unread x db db' = (db' ≡ db) ⊎ IsUnread user key unread x db'

abbrev error_or : AppError → Result OrderResponse × Db → AppError
error_or y (ok a, db) = y
error_or y (err e, db) = e

conclude-Refused :
    (user : Uuid) (key : IdempotencyKey) (unread : Option SqlxError) (db : Db) (r : TxOut Ending)
    {x : AppError} {db' : Db}
    → ((e : Ending) (d : Db) → r ≡ committed e d → EndsFor user key e d)
    → conclude unread (some key) db r ≡ (err x, db')
    → Refused user key unread x db db'
unfolding deliver replay replay_by_key find_idempotency
conclude-Refused user key unread db (rolled_back e) k h = inl (sym (ap (λ p. p.1) h))
conclude-Refused user key unread db (committed (empty_cart b) d) k h = inl (sym (ap (λ p. p.1) h))
conclude-Refused user key unread db (committed (replayed u t) d) k h = inl (sym (ap (λ p. p.1) h))
conclude-Refused user key none db (committed (placed o) d) k h =
    absurd (ground (arith, ap (λ p. p.0) h))
conclude-Refused user key (some e) db (committed (placed o) d) {x} {db'} k h =
    let found = k (placed o) d refl in
    let after = deliver (order_placed o.user_id o.id o.order_number) d in
    let state : after ≡ db' = ap (λ p. p.1) h in
    inr record {
      failure = e;
      failed_read = refl;
      answered = sym (ap (error_or x) h);
      order = o;
      found = rw (← state) (rw (found.by_key, found.by_id) refl);
    }

module _ (upper : String → String) (stamp : Instant → String) where
  run_intent-Refused :
      (user : Uuid) (key : IdempotencyKey) (correlation : Option String) (now : Instant)
      (unread : Option SqlxError) (db : Db) (intent : Result CheckoutIntent) {x : AppError}
      {db' : Db}
      → IsFresh db
      → run_intent upper stamp user (some key) correlation now unread db intent ≡ (err x, db')
      → Refused user key unread x db db'
  run_intent-Refused user key correlation now unread db (err e) fresh h =
      inl (sym (ap (λ p. p.1) h))
  run_intent-Refused user key correlation now unread db (ok intent) fresh h =
      conclude-Refused user key unread db _
        (λ ending d done.
          checkout_tx-EndsFor upper stamp user key intent correlation now db ending fresh done)
        h

  after_replay-Refused :
      (user : Uuid) (key : IdempotencyKey) (req : CheckoutRequest) (correlation : Option String)
      (now : Instant) (unread : Option SqlxError) (db : Db) (r : Result (Option OrderResponse))
      {x : AppError} {db' : Db}
      → IsFresh db
      → after_replay upper stamp user (some key) req correlation now unread db r ≡ (err x, db')
      → Refused user key unread x db db'
  after_replay-Refused user key req correlation now unread db (err e) fresh h =
      inl (sym (ap (λ p. p.1) h))
  after_replay-Refused user key req correlation now unread db (ok (some a)) fresh h =
      inl (sym (ap (λ p. p.1) h))
  after_replay-Refused user key req correlation now unread db (ok none) fresh h =
      run_intent-Refused user key correlation now unread db (parse_request req) fresh h

  -- A checkout with a key that answers an error, whichever step refused, has left the database as it
  -- was, or it has placed its order and only a read of the response failed, with that error: then a
  -- repetition with the key, whatever its request, answers the order and changes nothing. The ids
  -- that the database gives out next are assumed to be those of no order yet, and the reads of the
  -- repetition's first look succeed.
  pub checkout-err :
      (user : Uuid) (key : IdempotencyKey) (req req' : CheckoutRequest)
      (correlation correlation' : Option String) (now now' : Instant)
      (unread unread' : Option SqlxError) (before db later : Db) {x : AppError} {db' : Db}
      → IsFresh db
      → checkout upper stamp user (some key) req correlation now unread before db ≡ (err x, db')
      → (db' ≡ db)
        ⊎ ((failure : SqlxError) × (order : Order) × (unread ≡ some failure)
            × (x ≡ database_error failure)
            × (checkout upper stamp user (some key) req' correlation' now' unread' db' later
                ≡ (ok (assemble order db'), later)))
  unfolding checkout
  checkout-err user key req req' correlation correlation' now now' unread unread' before db later
        fresh h =
      elim (after_replay-Refused user key req correlation now unread db
        (replay user (some key) before) fresh h) [
          | inl same ↦ inl same
          | inr it ↦ inr (it.failure, it.order, it.failed_read, it.answered, rw it.found refl)
        ]

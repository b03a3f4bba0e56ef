-- ===== src/Orders/Idempotency.antt =====
-- src/modules/orders/idempotency.rs: the keys of checkout, and the replay of an order.
pub mod Keys
use text.Mathlib.Text.{◌==◌ as str_eq}
use Prim.Native.Char.{Char}
use Prim.Native.String.{len}
use dream_fly_backend.Prelude.{
  ℕ, String, Bool, ltb, not, ◌&&◌, ◌||◌, Option, none, some, List, [], ◌∷◌, find, any, ◌==◌,
  if◌then◌else◌, trim, is_empty, all_chars, is_ascii_graphic,
}
use dream_fly_backend.Base.{Uuid}
use dream_fly_backend.AppError.{
  Result, ok, err, AppError, bad_request, internal, database_error, plain, format, uuid, SqlxError,
  database, other, is_unique, unique_violation,
}
use dream_fly_backend.Db.{
  Db, IdempotencyRow, Sql, SqlOut, done, failed, select, Tx, TxOut, committed, rolled_back,
}
use dream_fly_backend.Orders.Model.{Order}
use dream_fly_backend.Orders.Repository.{is_order}
use dream_fly_backend.Orders.Responses.{OrderResponse, assemble}
use dream_fly_backend.Points.Service.{BalanceLock}

-- The field is private in the source: `parse` makes it.
pub record IdempotencyKey : Type 0 where
  pub key : String

abbrev pub invalid : AppError
invalid = bad_request (plain "Idempotency-Key must be 1-128 ASCII printable characters")

-- `c == '-' || c == '_'` are graphic as well.
abbrev pub is_key_text : String → Bool
is_key_text s = not (is_empty s) && not (ltb 128 (len s)) && all_chars is_ascii_graphic s

abbrev pub parse_trimmed : String → Result IdempotencyKey
parse_trimmed s = if is_key_text s then ok (record { key = s }) else err invalid

unfoldable pub parse : String → Result IdempotencyKey
parse raw = parse_trimmed (trim raw)

-- The header: absent, not a text, or a text.
pub data Header : Type 0 where
  absent not_text : Header
  header : String → Header

abbrev some_key : Result IdempotencyKey → Result (Option IdempotencyKey)
some_key (ok k) = ok (some k)
some_key (err e) = err e

unfoldable pub from_headers : Header → Result (Option IdempotencyKey)
from_headers absent = ok none
from_headers not_text = err invalid
from_headers (header value) = some_key (parse value)

abbrev pub is_key : Uuid → String → IdempotencyRow → Bool
is_key user key row = row.user_id == user && str_eq row.key key

abbrev order_of : Option IdempotencyRow → Option Uuid
order_of none = none
order_of (some row) = some row.order_id

unfoldable pub find_idempotency : Uuid → String → Db → Option Uuid
find_idempotency user key db = order_of (find (is_key user key) db.order_idempotency)

-- With the primary key `(user_id, idempotency_key)`.
unfoldable pub insert_idempotency_tx : Uuid → String → Uuid → Sql (Unit {0})
insert_idempotency_tx user key order db =
    if any (is_key user key) db.order_idempotency
    then failed (database unique_violation (some "order_idempotency_pkey"))
    else done tt (record db {
      order_idempotency =
          record { user_id = user; key = key; order_id = order } ∷ db.order_idempotency;
    })

-- The replay reads only: it gives the answer at a state of the database.
abbrev replay_order : Uuid → Db → Option Order → Result (Option OrderResponse)
replay_order id db (some order) = ok (some (assemble order db))
replay_order id db none =
    err (internal (format "idempotency row referenced missing order {}" (uuid id ∷ [])))

abbrev replay_id : Db → Option Uuid → Result (Option OrderResponse)
replay_id db none = ok none
replay_id db (some id) = replay_order id db (find (is_order id) db.orders)

unfoldable pub replay_by_key : Uuid → String → Db → Result (Option OrderResponse)
replay_by_key user key db = replay_id db (find_idempotency user key db)

unfoldable pub replay : Uuid → Option IdempotencyKey → Db → Result (Option OrderResponse)
replay user none db = ok none
replay user (some key) db = replay_by_key user key.key db

abbrev pub or_fail : AppError → Result (Option OrderResponse) → Result OrderResponse
or_fail otherwise (ok (some response)) = ok response
or_fail otherwise (ok none) = err otherwise
or_fail otherwise (err e) = err e

-- The transaction has been released: `db` is the state without it.
unfoldable pub replay_or :
    BalanceLock → Option IdempotencyKey → AppError → Db → Result OrderResponse
replay_or buyer none otherwise db = err otherwise
replay_or buyer (some key) otherwise db = or_fail otherwise (replay_by_key buyer.user_id key.key db)

-- The answer of the twin that won, from the state without this transaction.
unfoldable pub replay_twin : Uuid → IdempotencyKey → Db → Result OrderResponse
replay_twin user key db =
    or_fail (internal (plain "idempotency unique violation but no committed row"))
      (replay_by_key user key.key db)

-- `twin_won` ends the transaction; its answer is `replay_twin`.
pub data Recorded : Type 0 where
  fresh : Recorded
  twin_won : Uuid → IdempotencyKey → Recorded

abbrev pub recorded_error : Uuid → IdempotencyKey → SqlxError → Db → TxOut Recorded
recorded_error user key (database state c) db =
    if is_unique state
    then committed (twin_won user key) db
    else rolled_back (database_error (database state c))
recorded_error user key other db = rolled_back (database_error other)

abbrev pub recorded : Uuid → IdempotencyKey → Db → SqlOut (Unit {0}) → TxOut Recorded
recorded user key db (done u db') = committed fresh db'
recorded user key db (failed e) = recorded_error user key e db

unfoldable pub record_key : BalanceLock → Option IdempotencyKey → Uuid → Tx Recorded
record_key buyer none order db = committed fresh db
record_key buyer (some key) order db =
    recorded buyer.user_id key db (insert_idempotency_tx buyer.user_id key.key order db)

-- ===== src/AppError.antt =====
-- src/error/mod.rs: the error type of every service, and its HTTP response.
use dream_fly_backend.Prelude.{
  ℕ, ℤ, String, Bool, true, false, ◌&&◌, Option, none, some, List, if◌then◌else◌, ◌≡◌, refl, ◌⊎◌,
  inl, inr,
}
use text.Mathlib.Text.{◌==◌ as str_eq}

-- A message: a text, or a `format!` template with its arguments.
pub data Arg : Type 0 where
  str : String → Arg
  int : ℤ → Arg
  uuid : ℕ → Arg
  strs : List String → Arg

pub data Message : Type 0 where
  plain : String → Message
  format : String → List Arg → Message

-- The SQLSTATE classes that the code tells apart.
pub data SqlState : Type 0 where
  unique_violation exclusion_violation check_violation other_state : SqlState

-- `sqlx::Error`: an error that PostgreSQL reports, with its constraint, or any other.
pub data SqlxError : Type 0 where
  database : SqlState → Option String → SqlxError
  other : SqlxError

pub data AppError : Type 0 where
  not_found bad_request forbidden conflict validation : Message → AppError
  unauthorized : AppError
  database_error : SqlxError → AppError
  internal : Message → AppError

abbrev pub is_unique : SqlState → Bool
is_unique unique_violation = true
is_unique _ = false

abbrev pub is_exclusion : SqlState → Bool
is_exclusion exclusion_violation = true
is_exclusion _ = false

abbrev pub is_check : SqlState → Bool
is_check check_violation = true
is_check _ = false

abbrev pub is_constraint : Option String → String → Bool
is_constraint none name = false
is_constraint (some c) name = str_eq c name

unfoldable pub constraint_name : SqlxError → Option String
constraint_name (database state constraint) = constraint
constraint_name other = none

unfoldable pub conflict_on_unique : SqlxError → Message → AppError
conflict_on_unique (database state c) msg =
    if is_unique state then conflict msg else database_error (database state c)
conflict_on_unique other msg = database_error other

unfoldable pub conflict_on_exclusion : SqlxError → Message → AppError
conflict_on_exclusion (database state c) msg =
    if is_exclusion state then conflict msg else database_error (database state c)
conflict_on_exclusion other msg = database_error other

unfoldable pub conflict_on_constraint : SqlxError → String → Message → AppError
conflict_on_constraint (database state c) name msg =
    if is_unique state && is_constraint c name
    then conflict msg
    else database_error (database state c)
conflict_on_constraint other name msg = database_error other

-- `IntoResponse`: the status and the `error` field of the body.
pub record Response : Type 0 where
  pub status : ℕ
  pub message : Message

abbrev reply : ℕ → Message → Response
reply s m = record { status = s; message = m }

unfoldable pub into_response : AppError → Response
into_response (not_found m) = reply 404 m
into_response (bad_request m) = reply 400 m
into_response unauthorized = reply 401 (plain "unauthorized")
into_response (forbidden m) = reply 403 m
into_response (conflict m) = reply 409 m
into_response (validation m) = reply 422 m
into_response (database_error (database unique_violation c)) =
    reply 409 (plain "resource already exists")
into_response (database_error (database exclusion_violation c)) =
    reply 409 (plain "resource overlaps with an existing one")
into_response (database_error e) = reply 500 (plain "internal server error")
into_response (internal e) = reply 500 (plain "internal server error")

pub data Result {ℓ} (A : Type ℓ) : Type ℓ where
  ok : A → Result A
  err : AppError → Result A

-- The `?` operator.
infixl 5 ◌>>=◌ ◌>>◌
abbrev pub ◌>>=◌ {ℓ κ} : {X : Type ℓ} {Y : Type κ} → Result X → (X → Result Y) → Result Y
err refusal >>= next = err refusal
ok answer >>= next = next answer

abbrev pub ◌>>◌ {ℓ} : {Y : Type ℓ} → Result (Unit {0}) → Result Y → Result Y
checked >> next = checked >>= λ _. next

abbrev pub ok_or {ℓ} : {A : Type ℓ} → Option A → AppError → Result A
ok_or (some a) e = ok a
ok_or none e = err e

pub Result-cases {ℓ} :
    {A : Type ℓ} (r : Result A) → ((a : A) × (r ≡ ok a)) ⊎ ((e : AppError) × (r ≡ err e))
Result-cases (ok a) = inl (a, refl)
Result-cases (err e) = inr (e, refl)

-- ===== src/Prelude/Words.antt =====
-- Rust's `i64` and `i32`: two's complement, with the checked and the wrapping operations.
use Prim.Native.Nat.{ℕ, ◌-◌, ◌%◌, ◌≤◌, ◌<◌}
use mathlib.Core.Path.{◌≡◌}
use mathlib.Core.Option.{Option, none, some}
use native.Mathlib.Omega.{arith}
use dream_fly_backend.Prelude.Tests.{ltb, if◌then◌else◌}
use dream_fly_backend.Prelude.Int.{ℤ, pos, negsuc, pos_part, neg_part, ◌+ℤ◌, ◌-ℤ◌, ◌*ℤ◌, neg_ℤ}

-- A value of a signed type of `2 * half` values.
abbrev pub InWord : ℕ → ℤ → Type 0
InWord half z = (pos_part z < half) × (neg_part z ≤ half)

abbrev pub i64_half : ℕ
i64_half = 9_223_372_036_854_775_808

abbrev pub i32_half : ℕ
i32_half = 2_147_483_648

abbrev pub InI64 : ℤ → Type 0
InI64 = InWord i64_half

abbrev pub InI32 : ℤ → Type 0
InI32 = InWord i32_half

-- `checked_*`: `none` outside the type.
unfoldable pub check_word : ℕ → ℤ → Option ℤ
check_word half (pos n) = if ltb n half then some (pos n) else none
check_word half (negsuc n) = if ltb n half then some (negsuc n) else none

abbrev pub checked_add_i64 : ℤ → ℤ → Option ℤ
checked_add_i64 a b = check_word i64_half (a +ℤ b)

abbrev pub checked_mul_i64 : ℤ → ℤ → Option ℤ
checked_mul_i64 a b = check_word i64_half (a *ℤ b)

-- The bare operators of a release build: the result modulo `2 * half`, read as signed.
unfoldable pub wrap_word : (half modulus : ℕ) → ℤ → ℤ
wrap_word half modulus (pos n) =
    let m = n % modulus in if ltb m half then pos m else negsuc (modulus - m - 1)
wrap_word half modulus (negsuc n) =
    let m = n % modulus in if ltb m half then negsuc m else pos (modulus - m - 1)

abbrev pub wrap_i64 : ℤ → ℤ
wrap_i64 = wrap_word i64_half 18_446_744_073_709_551_616

abbrev pub wrap_i32 : ℤ → ℤ
wrap_i32 = wrap_word i32_half 4_294_967_296

infixl 65 ◌+i64◌ ◌-i64◌
infixl 70 ◌*i64◌
abbrev pub ◌+i64◌ : ℤ → ℤ → ℤ
a +i64 b = wrap_i64 (a +ℤ b)

abbrev pub ◌-i64◌ : ℤ → ℤ → ℤ
a -i64 b = wrap_i64 (a -ℤ b)

abbrev pub ◌*i64◌ : ℤ → ℤ → ℤ
a *i64 b = wrap_i64 (a *ℤ b)

abbrev pub neg_i64 : ℤ → ℤ
neg_i64 a = wrap_i64 (neg_ℤ a)

pub check_word_pos : (half n : ℕ) → n < half → check_word half (pos n) ≡ some (pos n)
unfolding check_word
check_word_pos half n h = ground arith

pub check_word_big : (half n : ℕ) → half ≤ n → check_word half (pos n) ≡ none
unfolding check_word
check_word_big half n h = ground arith

pub check_word-in : (half : ℕ) (z : ℤ) → InWord half z → check_word half z ≡ some z
unfolding check_word
check_word-in half (pos n) h = ground arith
check_word-in half (negsuc n) h = ground arith

pub check_word-some :
    (half : ℕ) (z : ℤ) {r : ℤ} → check_word half z ≡ some r → (r ≡ z) × InWord half z
unfolding check_word
check_word-some half (pos n) h = ground arith
check_word-some half (negsuc n) h = ground arith

-- Inside the type nothing wraps.
pub wrap_i64_id : (z : ℤ) → InI64 z → wrap_i64 z ≡ z
unfolding wrap_word
wrap_i64_id (pos n) h = ground arith
wrap_i64_id (negsuc n) h = ground arith

pub wrap_i32_id : (z : ℤ) → InI32 z → wrap_i32 z ≡ z
unfolding wrap_word
wrap_i32_id (pos n) h = ground arith
wrap_i32_id (negsuc n) h = ground arith

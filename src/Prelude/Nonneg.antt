-- ===== src/Prelude/Nonneg.antt =====
-- The `i64` operations at numbers that are not negative: where the result fits, nothing wraps.
use Prim.Native.Nat.{ℕ, ◌+◌, ◌-◌, ◌*◌, ◌/◌, ◌≤◌, ◌<◌, min}
use mathlib.Core.Path.{◌≡◌, refl}
use native.Mathlib.Omega.{arith}
use native.Mathlib.Nat.{mul-zero, zero-mul, zero-div}
use dream_fly_backend.Prelude.Int.{
  ℤ, pos, negsuc, pos_part, sub_ℕ, ◌+ℤ◌, ◌-ℤ◌, ◌*ℤ◌, ◌/ℤ◌, neg_ℤ, ◌≤ℤ◌, min_ℤ,
}
use dream_fly_backend.Prelude.Words.{i64_half, wrap_i64_id, ◌+i64◌, ◌-i64◌, ◌*i64◌, neg_i64}

pub nonneg_eq : (z : ℤ) → pos 0 ≤ℤ z → z ≡ pos (pos_part z)
nonneg_eq (pos n) h = refl
nonneg_eq (negsuc n) h = absurd (omega arith)

pub add_pos : (a b : ℕ) → pos a +ℤ pos b ≡ pos (a + b)
unfolding ◌+ℤ◌
add_pos a b = ground arith

pub sub_pos : (a b : ℕ) → b ≤ a → pos a -ℤ pos b ≡ pos (a - b)
unfolding ◌-ℤ◌
sub_pos a b h = ground arith

pub mul_pos : (a b : ℕ) → pos a *ℤ pos b ≡ pos (a * b)
unfolding ◌*ℤ◌
mul_pos a b = ground (arith, mul-zero a, zero-mul b)

pub div_pos : (a d : ℕ) → pos a /ℤ d ≡ pos (a / d)
unfolding ◌/ℤ◌
div_pos a d = rw (zero-div d) (ground arith)

pub min_pos : (a b : ℕ) → min_ℤ (pos a) (pos b) ≡ pos (min a b)
unfolding min_ℤ
min_pos a b = ground arith

pub add_i64_pos : (a b : ℕ) → a + b < i64_half → pos a +i64 pos b ≡ pos (a + b)
add_i64_pos a b h = rw (add_pos a b) (wrap_i64_id (pos (a + b)) (omega arith))

pub sub_i64_pos : (a b : ℕ) → b ≤ a → a < i64_half → pos a -i64 pos b ≡ pos (a - b)
sub_i64_pos a b h k = rw (sub_pos a b h) (wrap_i64_id (pos (a - b)) (omega arith))

pub mul_i64_pos : (a b : ℕ) → a * b < i64_half → pos a *i64 pos b ≡ pos (a * b)
mul_i64_pos a b h = rw (mul_pos a b) (wrap_i64_id (pos (a * b)) (omega arith))

pub neg_i64_pos : (a : ℕ) → a ≤ i64_half → neg_i64 (pos a) ≡ neg_ℤ (pos a)
unfolding neg_ℤ
neg_i64_pos a h = wrap_i64_id (sub_ℕ 0 a) (ground arith)

-- ===== src/Kafka/Outbox/Delay.antt =====
-- The backoff of a row that keeps failing.
use native.Mathlib.Nat.{pow-le-pow_right}
use dream_fly_backend.Prelude.{ℕ, ◌^◌, ◌≤◌, min, ◌≡◌, refl, arith, ltb, Bool-cases, inl, inr}
use dream_fly_backend.Kafka.Outbox.{retry_delay}

-- The delay doubles with every failed attempt and is capped at one hour, for any number of
-- attempts, also where the shift leaves 64 bits.
pub retry_delay-eq : (attempts : ℕ) → retry_delay attempts ≡ min (2 ^ attempts) 3_600
unfolding retry_delay
retry_delay-eq attempts = elim (Bool-cases (ltb attempts 64)) [
  | inl small ↦ rw small refl
  | inr large ↦
      let grows : 2 ^ 64 ≤ 2 ^ attempts =
        pow-le-pow_right (omega arith) {i = 64} (ground (arith, large)) in
      rw large (omega (arith, grows))
]

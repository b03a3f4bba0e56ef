-- ===== src/Kafka/Consumer/Retries.antt =====
-- src/kafka/consumer.rs: `resolve` calls the handler until it settles, five times at most.
use dream_fly_backend.Prelude.{
  ℕ, zero, suc, ◌+◌, ◌<◌, ◌≡◌, ◌⊎◌, refl, ◌∙◌, leb, Bool, true, false, not, ◌&&◌, Option, none,
  some, String, arith, Bool-cases, inl, inr, if◌then◌else◌,
}
use dream_fly_backend.Kafka.Consumer.{
  ProcessingError, transient, poison, max_attempts, Resolution, commit, shutdown, Resolved,
  resolve_loop,
}

abbrev is_transient : Option ProcessingError → Bool
is_transient none = false
is_transient (some (poison reason)) = false
is_transient (some (transient reason)) = true

answer-cases :
    (o : Option ProcessingError)
    → (o ≡ none)
      ⊎ (((reason : String) × (o ≡ some (poison reason)))
          ⊎ ((reason : String) × (o ≡ some (transient reason))))
answer-cases none = inl refl
answer-cases (some (poison reason)) = inr (inl (reason, refl))
answer-cases (some (transient reason)) = inr (inr (reason, refl))

module _ {S : Type 0} (handle : String → S → Option ProcessingError × S) (payload : String)
    (stops : ℕ → Bool) (s : S) where
  -- The handler's state after `k` calls, and its answer to call `suc k`.
  abbrev after : ℕ → S
  after zero = s
  after (suc k) = (handle payload (after k)).1

  abbrev answer : ℕ → Option ProcessingError
  answer k = (handle payload (after k)).0

  abbrev pub is_retryable : ℕ → Bool
  is_retryable k = is_transient (answer k) && not (leb max_attempts (suc k))

  abbrev goes_on : ℕ → Bool
  goes_on k = is_retryable k && not (stops (suc k))

  -- The first `k` calls all go on.
  abbrev all_go_on : ℕ → Bool
  all_go_on zero = true
  all_go_on (suc k) = all_go_on k && goes_on k

  -- The message settles at the first call that does not go on.
  pub record Settled (r : Resolved S) : Type 0 where
    pub retried : ℕ
    pub counted : r.calls ≡ suc retried
    pub bounded : retried < max_attempts
    pub carried : r.state ≡ after (suc retried)
    pub earlier : all_go_on retried ≡ true
    pub last : goes_on retried ≡ false
    pub answered : r.resolution ≡ (if is_retryable retried then shutdown else commit)

  -- The call that settles the message.
  abbrev stop_at : (k : ℕ) → Resolution → Resolved S
  stop_at k r = record { resolution = r; calls = suc k; state = after (suc k) }

  Settled-commit :
      (k : ℕ)
      → k < max_attempts
      → all_go_on k ≡ true
      → is_retryable k ≡ false
      → Settled (stop_at k commit)
  Settled-commit k h on no_retry = record {
    retried = k;
    counted = refl;
    bounded = h;
    carried = refl;
    earlier = on;
    last = ground (arith, no_retry);
    answered = rw no_retry refl;
  }

  Settled-shutdown :
      (k : ℕ)
      → k < max_attempts
      → all_go_on k ≡ true
      → is_retryable k ≡ true
      → stops (suc k) ≡ true
      → Settled (stop_at k shutdown)
  Settled-shutdown k h on retry stop = record {
    retried = k;
    counted = refl;
    bounded = h;
    carried = refl;
    earlier = on;
    last = ground (arith, stop);
    answered = rw retry refl;
  }

  module _ (fuel attempt : ℕ) (t : S) where
    resolve_loop-commit :
        is_transient (handle payload t).0 && not (leb max_attempts attempt) ≡ false
        → resolve_loop handle (suc fuel) stops payload attempt t
          ≡ some (record { resolution = commit; calls = attempt; state = (handle payload t).1 })
    unfolding resolve_loop
    resolve_loop-commit h = elim (answer-cases (handle payload t).0) [
      | inl e ↦ rw (e, resolve_loop) refl
      | inr (inl (reason, e)) ↦ rw (e, resolve_loop) refl
      | inr (inr (reason, e)) ↦
          let cap : leb max_attempts attempt ≡ true = ground (arith, rw e at h) in
          rw (e, resolve_loop, cap) refl
    ]

    resolve_loop-retry :
        is_transient (handle payload t).0 && not (leb max_attempts attempt) ≡ true
        → resolve_loop handle (suc fuel) stops payload attempt t ≡ (
            if stops attempt
            then some
                (record { resolution = shutdown; calls = attempt; state = (handle payload t).1 })
            else resolve_loop handle fuel stops payload (suc attempt) (handle payload t).1)
    unfolding resolve_loop
    resolve_loop-retry h = elim (answer-cases (handle payload t).0) [
      | inl e ↦ absurd (ground (arith, rw e at h))
      | inr (inl (reason, e)) ↦ absurd (ground (arith, rw e at h))
      | inr (inr (reason, e)) ↦
          let more : leb max_attempts attempt ≡ false = ground (arith, rw e at h) in
          rw (e, resolve_loop, more) refl
    ]

  resolve_loop-from :
      (fuel k : ℕ)
      → fuel + k ≡ max_attempts
      → k < max_attempts
      → all_go_on k ≡ true
      → (r : Resolved S) × (resolve_loop handle fuel stops payload (suc k) (after k) ≡ some r)
        × Settled r
  resolve_loop-from zero k sum h on = absurd (omega arith)
  resolve_loop-from (suc fuel) k sum h on = elim (Bool-cases (is_retryable k)) [
    | inr no_retry ↦ (
      stop_at k commit,
      resolve_loop-commit fuel (suc k) (after k) no_retry,
      Settled-commit k h on no_retry,
    )
    | inl retry ↦ elim (Bool-cases (stops (suc k))) [
      | inl stop ↦ (
        stop_at k shutdown,
        resolve_loop-retry fuel (suc k) (after k) retry ∙ rw stop refl,
        Settled-shutdown k h on retry stop,
      )
      | inr wait ↦
          let again = resolve_loop-retry fuel (suc k) (after k) retry in
          let below : suc k < max_attempts = ground (arith, retry) in
          let rest =
            resolve_loop-from fuel (suc k) (omega (arith, sum)) below
              (ground (arith, on, retry, wait)) in
          (rest.0, again ∙ rw wait rest.1, rest.2)
    ]
  ]

  -- A message is resolved after at most five calls of the handler: the first call whose answer is
  -- not transient, the fifth, or the first whose backoff the shutdown interrupts is the last. Only
  -- that interruption leaves the message uncommitted.
  pub resolve_loop-Settled :
      (r : Resolved S) × (resolve_loop handle max_attempts stops payload 1 s ≡ some r) × Settled r
  resolve_loop-Settled = resolve_loop-from max_attempts 0 refl (omega arith) refl

-- ===== src/Kafka/Consumer/Order.antt =====
-- src/kafka/consumer.rs: `run` commits the messages in their order, and no later one before it.
use dream_fly_backend.Prelude.{
  ℕ, zero, suc, ◌<◌, ◌≡◌, ◌⊎◌, ◌+ℤ◌, pos, refl, ap, ◌∙◌, Bool, true, false, Option, some, List, [],
  ◌∷◌, ◌++◌, map, any, String, arith, Bool-cases, Option-cases, inl, inr,
}
use dream_fly_backend.Kafka.Consumer.{
  ProcessingError, SourceMessage, Position, commit, shutdown, Resolved, skipped, resolve, Wakeup,
  changed, message, stream_ended, stopped, Consumed, add_commit, run,
}
use dream_fly_backend.Kafka.Consumer.Retries.{Settled, is_retryable, resolve_loop-Settled}

abbrev pub messages : List Wakeup → List SourceMessage
messages [] = []
messages (changed b ∷ ws) = messages ws
messages (message msg stops ∷ ws) = msg ∷ messages ws

abbrev pub attempts_before_last : List ℕ
attempts_before_last = 1 ∷ 2 ∷ 3 ∷ 4 ∷ []

-- Whether the shutdown is signalled: between two messages, or during a backoff.
abbrev pub asks_to_stop : Wakeup → Bool
asks_to_stop (changed b) = b
asks_to_stop (message msg stops) = any stops attempts_before_last

-- The record after a message, which a restarted consumer of the partition reads first.
abbrev pub next_record : SourceMessage → Position
next_record msg = record {
  topic = msg.topic;
  partition = msg.partition;
  offset = msg.offset +ℤ pos 1;
}

-- The stream has ended and all its messages are committed; or the shutdown was signalled at a wakeup,
-- and the messages before it are.
abbrev pub InOrder : {S : Type 0} → List Wakeup → Consumed S → Type 0
InOrder ws c =
    ((c.exit ≡ stream_ended) × (c.commits ≡ map next_record (messages ws)))
    ⊎ ((c.exit ≡ stopped)
        × ((done : List Wakeup) × (stop : Wakeup) × (rest : List Wakeup) × (ws
              ≡ done ++ stop ∷ rest)
            × (asks_to_stop stop ≡ true)
            × (c.commits ≡ map next_record (messages done))))

module _ {S : Type 0} (handle : String → S → Option ProcessingError × S)
    (from_utf8 : List ℕ → Option String) where
  any-stop :
      (stops : ℕ → Bool) (k : ℕ)
      → k < 4
      → stops (suc k) ≡ true
      → any stops attempts_before_last ≡ true
  any-stop stops zero h e = ground (arith, e)
  any-stop stops (suc zero) h e = ground (arith, e)
  any-stop stops (suc (suc zero)) h e = ground (arith, e)
  any-stop stops (suc (suc (suc zero))) h e = ground (arith, e)
  any-stop stops (suc (suc (suc (suc k)))) h e = absurd (omega arith)

  Settled-resolution :
      (payload : String) (stops : ℕ → Bool) (s : S) (r : Resolved S)
      → Settled handle payload stops s r
      → (r.resolution ≡ commit)
        ⊎ ((r.resolution ≡ shutdown) × (any stops attempts_before_last ≡ true))
  Settled-resolution payload stops s r settled = elim (Bool-cases retryable) [
    | inr shut ↦ inl (settled.answered ∙ rw shut refl)
    | inl retry ↦ inr (
      settled.answered ∙ rw retry refl,
      any-stop stops settled.retried (ground (arith, retry)) (ground (arith, retry, settled.last)),
    )
  ]
    where
      retryable : Bool
      retryable = is_retryable handle payload stops s settled.retried

  resolve-resolution :
      (msg : SourceMessage) (stops : ℕ → Bool) (s : S)
      → (r : Resolved S) × (resolve handle from_utf8 msg stops s ≡ some r)
        × ((r.resolution ≡ commit)
            ⊎ ((r.resolution ≡ shutdown) × (any stops attempts_before_last ≡ true)))
  unfolding resolve
  resolve-resolution msg stops s = elim (Option-cases msg.payload) [
    | inl e ↦ (skipped handle from_utf8 s, rw (e, resolve) refl, inl refl)
    | inr (bytes, e) ↦ elim (Option-cases (from_utf8 bytes)) [
      | inl e' ↦ (skipped handle from_utf8 s, rw (e, resolve) (rw e' refl), inl refl)
      | inr (payload, e') ↦
          let settled = resolve_loop-Settled handle payload stops s in
          (
            settled.0,
            rw (e, resolve) (rw e' settled.1),
            Settled-resolution payload stops s settled.0 settled.2,
          )
    ]
  ]

  run-commit :
      (msg : SourceMessage) (stops : ℕ → Bool) (ws : List Wakeup) (s : S) (r : Resolved S)
      {c : Consumed S}
      → resolve handle from_utf8 msg stops s ≡ some r
      → r.resolution ≡ commit
      → run handle from_utf8 ws r.state ≡ some c
      → run handle from_utf8 (message msg stops ∷ ws) s ≡ some (add_commit handle from_utf8 msg c)
  unfolding run
  run-commit msg stops ws s r e kept rest = rw (e, run) (rw kept (rw rest refl))

  run-shutdown :
      (msg : SourceMessage) (stops : ℕ → Bool) (ws : List Wakeup) (s : S) (r : Resolved S)
      → resolve handle from_utf8 msg stops s ≡ some r
      → r.resolution ≡ shutdown
      → run handle from_utf8 (message msg stops ∷ ws) s
        ≡ some (record { commits = []; state = r.state; exit = stopped })
  unfolding run
  run-shutdown msg stops ws s r e broken = rw (e, run) (rw broken refl)

  InOrder-commit :
      (msg : SourceMessage) (stops : ℕ → Bool) (ws : List Wakeup) (c : Consumed S)
      → InOrder ws c
      → InOrder (message msg stops ∷ ws) (add_commit handle from_utf8 msg c)
  InOrder-commit msg stops ws c (inl (ended, all_done)) =
      inl (ended, ap (next_record msg ∷◌) all_done)
  InOrder-commit msg stops ws c (inr (halt, (done, stop, rest, split, asked, commits))) = inr (
    halt,
    (
      message msg stops ∷ done,
      stop,
      rest,
      ap (message msg stops ∷◌) split,
      asked,
      ap (next_record msg ∷◌) commits,
    ),
  )

  InOrder-changed :
      (ws : List Wakeup) (c : Consumed S) → InOrder ws c → InOrder (changed false ∷ ws) c
  InOrder-changed ws c (inl ended) = inl ended
  InOrder-changed ws c (inr (halt, (done, stop, rest, split, asked, commits))) =
      inr (halt, (changed false ∷ done, stop, rest, ap (changed false ∷◌) split, asked, commits))

  -- `run` never runs out: every message is resolved. If the stream ends, the positions that it has
  -- committed are those of the records after the messages, each at its message's offset plus one, in
  -- the order of the messages and of all of them. If it stops, a wakeup has signalled the shutdown,
  -- between two messages or during the backoff of one, and the positions are those of the messages
  -- before that wakeup: an interrupted message is not committed.
  pub run-InOrder :
      (ws : List Wakeup) (s : S)
      → (c : Consumed S) × (run handle from_utf8 ws s ≡ some c) × InOrder ws c
  unfolding run
  run-InOrder [] s =
      (record { commits = []; state = s; exit = stream_ended }, refl, inl (refl, refl))
  run-InOrder (changed true ∷ ws) s = (
    record { commits = []; state = s; exit = stopped },
    refl,
    inr (refl, ([], changed true, ws, refl, refl, refl)),
  )
  run-InOrder (changed false ∷ ws) s =
      let (c, ran, ordered) = run-InOrder ws s in (c, ran, InOrder-changed ws c ordered)
  run-InOrder (message msg stops ∷ ws) s =
      let (r, e, which) = resolve-resolution msg stops s in
      elim which [
        | inl kept ↦
            let (c, ran, ordered) = run-InOrder ws r.state in
            (
              add_commit handle from_utf8 msg c,
              run-commit msg stops ws s r e kept ran,
              InOrder-commit msg stops ws c ordered,
            )
        | inr (broken, asked) ↦ (
          record { commits = []; state = r.state; exit = stopped },
          run-shutdown msg stops ws s r e broken,
          inr (refl, ([], message msg stops, ws, refl, asked, refl)),
        )
      ]

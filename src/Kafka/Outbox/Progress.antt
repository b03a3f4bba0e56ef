-- ===== src/Kafka/Outbox/Progress.antt =====
-- Progress of the dispatcher while the publisher answers: every event is published.
use dream_fly_backend.Prelude.{
  ◌≤◌, ◌<◌, ◌≡◌, refl, sym, ◌∙◌, ltb, ltb→lt, All-sort_by_key, Bool, true, not, ◌&&◌, ◌||◌, List,
  [], ◌∷◌, map, filter, any, all, count, All, length, arith, ◌==◌, ==_iff, Bool-cases, inl, inr,
  sort_by_key, leb_ℤ, ◌≤ℤ◌, any-imp, any-filter, All-filter, any-sort_by_key,
}
use dream_fly_backend.Base.{Uuid, Instant}
use dream_fly_backend.Kafka.Outbox.{
  OutboxRow, is_unpublished, is_due, has_id, claimable, take, by_attempt, Attempt, sent, drain_once,
  batch_size,
}
use dream_fly_backend.Kafka.Outbox.Settled.{settled, unlocked, drain_once-settled}

-- The rows that are still to be published fall in number.
module _ (ids : List Uuid) (now later : Instant) where
  count-settled_le :
      (rows : List OutboxRow)
      → count is_unpublished (map (settled ids now later) rows) ≤ count is_unpublished rows
  count-settled_le [] = omega arith
  count-settled_le (row ∷ rows) = elim (Bool-cases (has_id ids row)) [
    | inl hit ↦ rw hit (omega (arith, count-settled_le rows))
    | inr miss ↦ rw miss (omega (arith, count-settled_le rows))
  ]

  count-settled :
      (rows : List OutboxRow)
      → any (λ row. is_unpublished row && has_id ids row) rows ≡ true
      → count is_unpublished (map (settled ids now later) rows) < count is_unpublished rows
  count-settled [] h = absurd (ground arith)
  count-settled (row ∷ rows) h = elim (Bool-cases (has_id ids row)) [
    | inl hit ↦ elim (Bool-cases (is_unpublished row)) [
      | inl open_row ↦ rw (hit, open_row) (omega (arith, count-settled_le rows))
      | inr shut ↦ rw (hit, shut) (omega (arith, count-settled rows (ground (arith, h, hit, shut))))
    ]
    | inr miss ↦ rw miss (omega (arith, count-settled rows (ground (arith, h, miss))))
  ]

-- A row is published, or due by `t`.
abbrev pub is_ready : Instant → OutboxRow → Bool
is_ready t row = not (is_unpublished row) || leb_ℤ row.next_attempt_at t

all-settled :
    (t : Instant) (ids : List Uuid) (now later : Instant) (rows : List OutboxRow)
    → all (is_ready t) rows ≡ true
    → all (is_ready t) (map (settled ids now later) rows) ≡ true
all-settled t ids now later [] h = refl
all-settled t ids now later (row ∷ rows) h = elim (Bool-cases (has_id ids row)) [
  | inl hit ↦ rw hit (all-settled t ids now later rows (ground arith))
  | inr miss ↦ rw miss (ground (arith, all-settled t ids now later rows))
]

abbrev is_claimable : Instant → OutboxRow → Bool
is_claimable now row = is_due now row && not (unlocked row)

head-claimed :
    (rows queue : List OutboxRow)
    → All (λ row. is_unpublished row ≡ true) queue
    → ((p : OutboxRow → Bool) → any p queue ≡ true → any p rows ≡ true)
    → any (λ row. true) queue ≡ true
    → any (λ row. is_unpublished row && has_id (map (λ r. r.id) (take batch_size queue)) row) rows
      ≡ true
head-claimed rows [] open_rows sub e = absurd (ground arith)
head-claimed rows (x ∷ queue) (open_x, rest) sub e =
    any-imp (λ row. is_unpublished row && (x.id == row.id)) _ rows (λ row h. ground (arith, h))
      (sub (λ row. is_unpublished row && (x.id == row.id))
        (ground (arith, open_x, ==_iff x.id x.id)))

any-claimable :
    (t now : Instant) (rows : List OutboxRow)
    → t ≤ℤ now
    → all (is_ready t) rows ≡ true
    → 0 < count is_unpublished rows
    → any (λ row. true) (filter (is_claimable now) rows) ≡ true
any-claimable t now [] le ready more = absurd (omega arith)
any-claimable t now (row ∷ rows) le ready more = elim (Bool-cases (is_unpublished row)) [
  | inl open_row ↦
      let due : is_claimable now row ≡ true = ground (arith, open_row, ready, le) in rw due refl
  | inr shut ↦ elim (Bool-cases (is_claimable now row)) [
    | inl hit ↦ rw hit refl
    | inr miss ↦
        rw miss (any-claimable t now rows le (ground (arith, ready)) (ground (arith, more, shut)))
  ]
]

claims_one :
    (t now : Instant) (rows : List OutboxRow)
    → t ≤ℤ now
    → all (is_ready t) rows ≡ true
    → 0 < count is_unpublished rows
    → any (λ row. is_unpublished row && has_id (claimable unlocked now rows) row) rows ≡ true
unfolding claimable
claims_one t now rows le ready more =
    let due = filter (is_claimable now) rows in
    head-claimed rows (sort_by_key by_attempt due)
      (All-sort_by_key by_attempt (λ row. is_unpublished row ≡ true) due
        (All-filter is_unpublished (is_claimable now) rows (λ row h. ground (arith, h))))
      (λ p e. any-filter p (is_claimable now) rows (sym (any-sort_by_key by_attempt p due) ∙ e))
      (any-sort_by_key by_attempt (λ row. true) due ∙ any-claimable t now rows le ready more)

pub record Tick : Type 0 where
  pub now : Instant
  pub later : Instant

-- The dispatcher's loop, over its ticks.
abbrev pub drains : (OutboxRow → Attempt) → List Tick → List OutboxRow → List OutboxRow
drains publish [] rows = rows
drains publish (tick ∷ ticks) rows =
    drains publish ticks (drain_once unlocked publish tick.now tick.later rows)

-- If the broker answers every publish and no other dispatcher holds a row, a backlog is delivered:
-- when every unpublished row is due by `t`, as many ticks from `t` on as there are unpublished rows
-- leave none.
pub drains-publish :
    (publish : OutboxRow → Attempt) (t : Instant) (ticks : List Tick) (rows : List OutboxRow)
    → ((row : OutboxRow) → publish row ≡ sent)
    → All (λ (tick : Tick). t ≤ℤ tick.now) ticks
    → all (is_ready t) rows ≡ true
    → count is_unpublished rows ≤ length ticks
    → count is_unpublished (drains publish ticks rows) ≡ 0
drains-publish publish t [] rows h late ready enough = omega arith
drains-publish publish t (tick ∷ ticks) rows h (le, late) ready enough =
    let ids = claimable unlocked tick.now rows in
    rw (drain_once-settled publish tick.now tick.later rows h) (
      drains-publish publish t ticks (map (settled ids tick.now tick.later) rows) h late
        (all-settled t ids tick.now tick.later rows ready) fewer)
  where
    fewer :
        count is_unpublished
          (map (settled (claimable unlocked tick.now rows) tick.now tick.later) rows)
        ≤ length ticks
    fewer = elim (Bool-cases (ltb 0 (count is_unpublished rows))) [
      | inl more ↦ omega (
        arith,
        enough,
        count-settled (claimable unlocked tick.now rows) tick.now tick.later rows
            (claims_one t tick.now rows le ready (ltb→lt _ _ more)),
      )
      | inr none_left ↦
          let zero_left : count is_unpublished rows ≡ 0 = ground (arith, none_left) in
          omega (
            arith,
            zero_left,
            count-settled_le (claimable unlocked tick.now rows) tick.now tick.later rows,
          )
    ]

-- ===== src/Kafka/Outbox/Kept.antt =====
-- What a drain keeps: no event is lost, and a row is marked as published only if it was sent.
use dream_fly_backend.Prelude.{
  ◌≡◌, sym, Bool, true, false, ◌&&◌, List, [], ◌∷◌, any, arith, ◌⊎◌, inl, inr, ◌==◌, Bool-cases,
  ◌∙◌,
}
use dream_fly_backend.Base.{Uuid, Instant}
use dream_fly_backend.Kafka.Outbox.{
  OutboxRow, is_unpublished, has_id, claim, claimable, Attempt, publish_batch, batch_of, drain_once,
}
use dream_fly_backend.Kafka.Outbox.Rows.{
  Pointwise, is_sent, Kept, Rows_trans, claim-Rows, bookkeep-Rows,
}

publish_batch-sent :
    (publish : OutboxRow → Attempt) (batch : List OutboxRow) (row : OutboxRow)
    → has_id (publish_batch publish batch).published row ≡ true
    → any (λ r. r.id == row.id && is_sent (publish r)) batch ≡ true
unfolding publish_batch
publish_batch-sent publish [] row h = ground arith
publish_batch-sent publish (r ∷ rs) row h = ground (arith, publish_batch-sent publish rs row)

-- What a tick does to one row: the event is the same, and its publication is as before, or it was
-- not published and is now, and a claimed row of its id was sent.
pub record Drained (publish : OutboxRow → Attempt) (batch : List OutboxRow) (old new : OutboxRow)
    : Type 0 where
  pub same_id : new.id ≡ old.id
  pub same_topic : new.topic ≡ old.topic
  pub same_key : new.kafka_key ≡ old.kafka_key
  pub same_payload : new.payload ≡ old.payload
  pub publication :
      (is_unpublished new ≡ is_unpublished old)
      ⊎ ((is_unpublished old ≡ true)
          × (is_unpublished new ≡ false)
          × (any (λ r. r.id == old.id && is_sent (publish r)) batch ≡ true))

Kept-publication :
    (ids : List Uuid) (old new : OutboxRow)
    → Kept ids old new
    → (is_unpublished new ≡ is_unpublished old)
      ⊎ ((is_unpublished old ≡ true) × (is_unpublished new ≡ false) × (has_id ids old ≡ true))
Kept-publication ids old new k = elim (Bool-cases (is_unpublished new)) [
  | inl new_open ↦ elim (Bool-cases (is_unpublished old)) [
    | inl old_open ↦ inl (new_open ∙ sym old_open)
    | inr old_shut ↦ inl (k.stays old_shut ∙ sym old_shut)
  ]
  | inr new_shut ↦ elim (Bool-cases (is_unpublished old)) [
    | inl old_open ↦ elim (k.became new_shut) [
      | inl old_shut ↦ inl (new_shut ∙ sym old_shut)
      | inr marked ↦ inr (old_open, new_shut, marked)
    ]
    | inr old_shut ↦ inl (new_shut ∙ sym old_shut)
  ]
]

weaken :
    (publish : OutboxRow → Attempt) (batch xs ys : List OutboxRow)
    → Pointwise (Kept (publish_batch publish batch).published) xs ys
    → Pointwise (Drained publish batch) xs ys
weaken publish batch [] [] h = tt
weaken publish batch [] (y ∷ ys) h = elim h [ ]
weaken publish batch (x ∷ xs) [] h = elim h [ ]
weaken publish batch (x ∷ xs) (y ∷ ys) (k, h) = (
  record {
    same_id = k.same_id;
    same_topic = k.same_topic;
    same_key = k.same_key;
    same_payload = k.same_payload;
    publication = elim (Kept-publication _ x y k) [
      | inl same ↦ inl same
      | inr (old_open, new_shut, marked) ↦
          inr (old_open, new_shut, publish_batch-sent publish batch x marked)
    ];
  },
  weaken publish batch xs ys h,
)

-- A tick of the dispatcher, whatever the publisher answers and whichever rows others hold, loses no
-- event: the table has the same rows in the same order, with the same topics, keys and payloads; a
-- published row stays published; and a row that becomes published has been claimed by this tick and
-- sent by it.
pub drain_once-Drained :
    (locked : OutboxRow → Bool) (publish : OutboxRow → Attempt) (now later : Instant)
    (rows : List OutboxRow)
    → let ids = claimable locked now rows in
      Pointwise
        (Drained publish (batch_of ids (claim ids now rows)))
        rows
        (drain_once locked publish now later rows)
unfolding drain_once
drain_once-Drained locked publish now later rows =
    let ids = claimable locked now rows in
    let table = claim ids now rows in
    let outcome = publish_batch publish (batch_of ids table) in
    weaken publish (batch_of ids table) rows _ (
      Rows_trans outcome.published rows table _ (claim-Rows outcome.published ids now rows)
        (bookkeep-Rows outcome later table))

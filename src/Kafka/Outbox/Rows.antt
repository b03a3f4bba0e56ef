-- ===== src/Kafka/Outbox/Rows.antt =====
-- What the statements of the dispatcher keep of each row.
use dream_fly_backend.Prelude.{
  ◌≡◌, refl, Bool, true, false, Option, none, some, List, [], ◌∷◌, map, arith, ◌⊎◌, inl, inr, ◌==◌,
  Bool-cases, Option-cases, ◌∙◌, check_word, i32_half, ℤ, ◌+ℤ◌, pos,
}
use dream_fly_backend.Base.{Uuid, Instant}
use dream_fly_backend.Kafka.Outbox.{
  OutboxRow, is_unpublished, has_id, claim, Attempt, sent, FailedPublish, BatchOutcome,
  mark_published, mark_failed, mark_failures, bookkeep, cons_row, delay_row,
}

-- The relation holds of the rows of two lists, one by one.
abbrev pub Pointwise : (OutboxRow → OutboxRow → Type 0) → List OutboxRow → List OutboxRow → Type 0
Pointwise R [] [] = Unit
Pointwise R (x ∷ xs) (y ∷ ys) = R x y × Pointwise R xs ys
Pointwise R [] (y ∷ ys) = ⊥
Pointwise R (x ∷ xs) [] = ⊥

abbrev pub is_sent : Attempt → Bool
is_sent sent = true
is_sent _ = false

-- The event is the same; a published row stays so; and one becomes so only if its id is in `ids`.
pub record Kept (ids : List Uuid) (old new : OutboxRow) : Type 0 where
  pub same_id : new.id ≡ old.id
  pub same_topic : new.topic ≡ old.topic
  pub same_key : new.kafka_key ≡ old.kafka_key
  pub same_payload : new.payload ≡ old.payload
  pub stays : is_unpublished old ≡ false → is_unpublished new ≡ false
  pub became : is_unpublished new ≡ false → (is_unpublished old ≡ false) ⊎ (has_id ids old ≡ true)

module _ (ids : List Uuid) where
  Kept-refl : (row : OutboxRow) → Kept ids row row
  Kept-refl row = record {
    same_id = refl;
    same_topic = refl;
    same_key = refl;
    same_payload = refl;
    stays = λ h. h;
    became = λ h. inl h;
  }

  Kept-trans : (x y z : OutboxRow) → Kept ids x y → Kept ids y z → Kept ids x z
  Kept-trans x y z p q = record {
    same_id = q.same_id ∙ p.same_id;
    same_topic = q.same_topic ∙ p.same_topic;
    same_key = q.same_key ∙ p.same_key;
    same_payload = q.same_payload ∙ p.same_payload;
    stays = λ h. q.stays (p.stays h);
    became = λ h. elim (q.became h) [
      | inl old ↦ p.became old
      | inr in_ids ↦ inr (rw p.same_id at in_ids)
    ];
  }

  Rows_refl : (rows : List OutboxRow) → Pointwise (Kept ids) rows rows
  Rows_refl [] = tt
  Rows_refl (row ∷ rows) = (Kept-refl row, Rows_refl rows)

  pub Rows_trans :
      (xs ys zs : List OutboxRow)
      → Pointwise (Kept ids) xs ys
      → Pointwise (Kept ids) ys zs
      → Pointwise (Kept ids) xs zs
  Rows_trans [] [] [] p q = tt
  Rows_trans [] [] (z ∷ zs) p q = elim q [ ]
  Rows_trans [] (y ∷ ys) zs p q = elim p [ ]
  Rows_trans (x ∷ xs) [] zs p q = elim p [ ]
  Rows_trans (x ∷ xs) (y ∷ ys) [] p q = elim q [ ]
  Rows_trans (x ∷ xs) (y ∷ ys) (z ∷ zs) (p, ps) (q, qs) =
      (Kept-trans x y z p q, Rows_trans xs ys zs ps qs)

  Rows-map :
      (f : OutboxRow → OutboxRow)
      → ((row : OutboxRow) → Kept ids row (f row))
      → (rows : List OutboxRow) → Pointwise (Kept ids) rows (map f rows)
  Rows-map f h [] = tt
  Rows-map f h (row ∷ rows) = (h row, Rows-map f h rows)

  pub claim-Rows :
      (claimed : List Uuid) (now : Instant) (rows : List OutboxRow)
      → Pointwise (Kept ids) rows (claim claimed now rows)
  unfolding claim
  claim-Rows claimed now rows =
      Rows-map _
        (λ row. elim (Bool-cases (has_id claimed row)) [
          | inl hit ↦ rw hit (record {
            same_id = refl;
            same_topic = refl;
            same_key = refl;
            same_payload = refl;
            stays = λ h. h;
            became = λ h. inl h;
          })
          | inr miss ↦ rw miss (Kept-refl row)
        ])
        rows

  mark_published-Rows :
      (later : Instant) (rows : List OutboxRow)
      → Pointwise (Kept ids) rows (mark_published ids later rows)
  unfolding mark_published
  mark_published-Rows later rows =
      Rows-map _
        (λ row. elim (Bool-cases (has_id ids row)) [
          | inl hit ↦ rw hit (record {
            same_id = refl;
            same_topic = refl;
            same_key = refl;
            same_payload = refl;
            stays = λ h. refl;
            became = λ h. inr hit;
          })
          | inr miss ↦ rw miss (Kept-refl row)
        ])
        rows

  cons_row-Rows :
      (old new : OutboxRow) (rows : List OutboxRow) (rest : Option (List OutboxRow))
      {rows' : List OutboxRow}
      → Kept ids old new
      → ((rs : List OutboxRow) → rest ≡ some rs → Pointwise (Kept ids) rows rs)
      → cons_row new rest ≡ some rows'
      → Pointwise (Kept ids) (old ∷ rows) rows'
  cons_row-Rows old new rows none k h e = absurd (ground arith)
  cons_row-Rows old new rows (some rs) {rows'} k h e =
      let same : rows' ≡ new ∷ rs = cc in rw same (k, h rs refl)

  delay_row-Rows :
      (failure : FailedPublish) (later : Instant) (row : OutboxRow) (attempts : Option ℤ)
      (rows : List OutboxRow) (rest : Option (List OutboxRow)) {rows' : List OutboxRow}
      → ((rs : List OutboxRow) → rest ≡ some rs → Pointwise (Kept ids) rows rs)
      → delay_row failure later row attempts rest ≡ some rows'
      → Pointwise (Kept ids) (row ∷ rows) rows'
  delay_row-Rows failure later row none rows rest h e = absurd (ground arith)
  delay_row-Rows failure later row (some attempts) rows rest h e =
      cons_row-Rows row _ rows rest
        (record {
          same_id = refl;
          same_topic = refl;
          same_key = refl;
          same_payload = refl;
          stays = λ h. h;
          became = λ h. inl h;
        })
        h e

  mark_failed-Rows :
      (failure : FailedPublish) (later : Instant) (rows : List OutboxRow) {rows' : List OutboxRow}
      → mark_failed failure later rows ≡ some rows'
      → Pointwise (Kept ids) rows rows'
  unfolding mark_failed
  mark_failed-Rows failure later [] {rows'} e = let same : rows' ≡ [] = cc in rw same tt
  mark_failed-Rows failure later (row ∷ rows) e =
      let rest = λ (rs : List OutboxRow) (r : mark_failed failure later rows ≡ some rs).
        mark_failed-Rows failure later rows r in
      elim (Bool-cases (row.id == failure.id)) [
        | inl hit ↦
            delay_row-Rows failure later row (check_word i32_half (row.attempts +ℤ pos 1)) rows _
              rest (rw hit at e)
        | inr miss ↦ cons_row-Rows row row rows _ (Kept-refl row) rest (rw miss at e)
      ]

  mark_failures-Rows :
      (failures : List FailedPublish) (later : Instant) (rows : List OutboxRow)
      {rows' : List OutboxRow}
      → mark_failures failures later rows ≡ some rows'
      → Pointwise (Kept ids) rows rows'
  unfolding mark_failures
  mark_failures-Rows [] later rows {rows'} e =
      let same : rows' ≡ rows = cc in rw same (Rows_refl rows)
  mark_failures-Rows (failure ∷ failures) later rows {rows'} e =
      elim (Option-cases (mark_failed failure later rows)) [
        | inl stuck ↦ absurd (ground (arith, rw (stuck, mark_failures) at e))
        | inr (rows₁, first) ↦
            Rows_trans rows rows₁ rows' (mark_failed-Rows failure later rows first)
              (mark_failures-Rows failures later rows₁ (rw (first, mark_failures) at e))
      ]

pub bookkeep-Rows :
    (outcome : BatchOutcome) (later : Instant) (rows : List OutboxRow)
    → Pointwise (Kept outcome.published) rows (bookkeep outcome later rows)
unfolding bookkeep
bookkeep-Rows outcome later rows =
    elim (Option-cases
      (mark_failures outcome.failed later (mark_published outcome.published later rows))) [
        | inl rolled ↦ rw rolled (Rows_refl outcome.published rows)
        | inr (rows', e) ↦ rw e (
            Rows_trans outcome.published rows _ rows'
              (mark_published-Rows outcome.published later rows)
              (mark_failures-Rows outcome.published outcome.failed later _ e))
      ]

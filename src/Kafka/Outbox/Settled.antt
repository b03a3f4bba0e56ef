-- ===== src/Kafka/Outbox/Settled.antt =====
-- A tick of the dispatcher whose publisher answers.
use dream_fly_backend.Prelude.{
  ◌≡◌, refl, ap, ◌∙◌, Bool, true, false, ◌&&◌, List, [], ◌∷◌, map, filter, any, All, arith, ◌==◌,
  ==_iff, Bool-cases, inl, inr, if◌then◌else◌, sort_by_key, any-sort_by_key,
}
use dream_fly_backend.Base.{Uuid, Instant}
use dream_fly_backend.Kafka.Outbox.{
  OutboxRow, has_id, claim, claimable, leased, by_creation, Attempt, sent, publish_batch,
  publish_row, mark_published, mark_failures, bookkeep, batch_of, drain_once,
}

has_id-any :
    (rows : List OutboxRow) (row : OutboxRow)
    → has_id (map (λ r. r.id) rows) row ≡ any (λ r. r.id == row.id) rows
has_id-any [] row = refl
has_id-any (r ∷ rs) row = ground (arith, has_id-any rs row)

any-filter_ids :
    (ids : List Uuid) (rows : List OutboxRow) (row : OutboxRow)
    → any (λ r. r.id == row.id) (filter (has_id ids) rows)
      ≡ (has_id ids row && any (λ r. r.id == row.id) rows)
any-filter_ids ids [] row = ground arith
any-filter_ids ids (r ∷ rs) row = elim (Bool-cases (r.id == row.id)) [
  | inl same ↦
      let e : r.id ≡ row.id = (==_iff r.id row.id).0 same in
      elim (Bool-cases (has_id ids row)) [
        | inl hit ↦ rw (e, hit) (ground (arith, same))
        | inr miss ↦ rw (e, miss) (ground (arith, miss, any-filter_ids ids rs row))
      ]
  | inr other ↦ elim (Bool-cases (has_id ids r)) [
    | inl hit ↦ rw (hit, other) (any-filter_ids ids rs row)
    | inr miss ↦ rw (miss, other) (any-filter_ids ids rs row)
  ]
]

-- The ids that a batch holds, for a row of the table.
batch-ids :
    (ids : List Uuid) (table : List OutboxRow) (row : OutboxRow)
    → any (λ r. r.id == row.id) table ≡ true
    → has_id (map (λ r. r.id) (batch_of ids table)) row ≡ has_id ids row
unfolding batch_of
batch-ids ids table row h =
    rw
      (
        has_id-any (sort_by_key by_creation (filter (has_id ids) table)) row,
        any-sort_by_key by_creation (λ r. r.id == row.id) (filter (has_id ids) table),
        any-filter_ids ids table row,
        h,
      )
      (elim (Bool-cases (has_id ids row)) [ inl e ↦ rw e refl | inr e ↦ rw e refl ])

publish_batch-all :
    (publish : OutboxRow → Attempt)
    → ((row : OutboxRow) → publish row ≡ sent)
    → (batch : List OutboxRow)
    → publish_batch publish batch ≡ record { published = map (λ r. r.id) batch; failed = [] }
unfolding publish_batch
publish_batch-all publish h [] = refl
publish_batch-all publish h (row ∷ rows) =
    rw (h row, publish_batch) (rw (publish_batch-all publish h rows) refl)

-- A claimed row is published; any other is as it was.
abbrev pub settled : List Uuid → Instant → Instant → OutboxRow → OutboxRow
settled ids now later row = if has_id ids row then publish_row later (leased now row) else row

settled-eq :
    (ids published : List Uuid) (now later : Instant) (rows : List OutboxRow)
    → All (λ row. has_id published row ≡ has_id ids row) rows
    → mark_published published later (claim ids now rows) ≡ map (settled ids now later) rows
unfolding mark_published claim
settled-eq ids published now later [] h = refl
settled-eq ids published now later (row ∷ rows) (h, hs) = elim (Bool-cases (has_id ids row)) [
  | inl hit ↦
      rw (hit, h, hit)
        (ap (publish_row later (leased now row) ∷◌) (settled-eq ids published now later rows hs))
  | inr miss ↦ rw (miss, h, miss) (ap (row ∷◌) (settled-eq ids published now later rows hs))
]

any-claim :
    (ids : List Uuid) (now : Instant) (rows : List OutboxRow) (row : OutboxRow)
    → any (λ r. r.id == row.id) (claim ids now rows) ≡ any (λ r. r.id == row.id) rows
unfolding claim
any-claim ids now [] row = refl
any-claim ids now (r ∷ rs) row = elim (Bool-cases (has_id ids r)) [
  | inl hit ↦ rw hit (ground (arith, any-claim ids now rs row))
  | inr miss ↦ rw miss (ground (arith, any-claim ids now rs row))
]

-- Every row of a suffix of the table is found in the table.
All-any :
    (table rows : List OutboxRow)
    → ((row : OutboxRow)
        → any (λ r. r.id == row.id) rows ≡ true
        → any (λ r. r.id == row.id) table ≡ true)
    → All (λ row. any (λ r. r.id == row.id) table ≡ true) rows
All-any table [] h = tt
All-any table (row ∷ rows) h = (
  h row (ground (arith, ==_iff row.id row.id)),
  All-any table rows (λ r e. h r (ground (arith, e))),
)

All-batch :
    (ids : List Uuid) (table rows : List OutboxRow)
    → All (λ row. any (λ r. r.id == row.id) table ≡ true) rows
    → All (λ row. has_id (map (λ r. r.id) (batch_of ids table)) row ≡ has_id ids row) rows
All-batch ids table [] h = tt
All-batch ids table (row ∷ rows) (h, hs) = (batch-ids ids table row h, All-batch ids table rows hs)

abbrev pub unlocked : OutboxRow → Bool
unlocked row = false

-- A tick whose publisher answers: every claimed row is published.
pub drain_once-settled :
    (publish : OutboxRow → Attempt) (now later : Instant) (rows : List OutboxRow)
    → ((row : OutboxRow) → publish row ≡ sent)
    → drain_once unlocked publish now later rows
      ≡ map (settled (claimable unlocked now rows) now later) rows
unfolding drain_once bookkeep mark_failures
drain_once-settled publish now later rows h =
    let ids = claimable unlocked now rows in
    let table = claim ids now rows in
    let here : All (λ row. any (λ r. r.id == row.id) table ≡ true) rows =
      All-any table rows (λ row e. any-claim ids now rows row ∙ e) in
    rw (publish_batch-all publish h (batch_of ids table)) (
      settled-eq ids (map (λ r. r.id) (batch_of ids table)) now later rows
        (All-batch ids table rows here))

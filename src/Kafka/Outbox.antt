-- ===== src/Kafka/Outbox.antt =====
-- src/kafka/outbox.rs: draining `events_outbox`, at least once and with a backoff.
pub mod Delay
pub mod Rows
pub mod Kept
pub mod Settled
pub mod Progress
use dream_fly_backend.Prelude.{
  ℕ, zero, suc, ◌+◌, ◌-◌, ◌*◌, ◌^◌, min, ℤ, pos, negsuc, pos_part, neg_part, ◌+ℤ◌, leb_ℤ, ltb,
  String, Bool, true, false, not, ◌&&◌, Option, none, some, List, [], ◌∷◌, ◌++◌, map, filter, any,
  ◌==◌, if◌then◌else◌, check_word, i32_half, i64_half, sort_by_key,
}
use dream_fly_backend.Base.{Uuid, Instant}

-- An `events_outbox` row.
pub record OutboxRow : Type 0 where
  pub id : Uuid
  pub topic : String
  pub kafka_key : String
  pub payload : String
  pub attempts : ℤ
  pub created_at : Instant
  pub next_attempt_at : Instant
  pub published_at : Option Instant
  pub last_error : Option String

abbrev pub batch_size : ℕ
batch_size = 100

abbrev pub second : ℕ
second = 1_000_000

-- `LEASE`, in microseconds.
abbrev pub lease : ℤ
lease = pos 60_000_000

-- `MAX_RETRY_DELAY`, in seconds.
abbrev pub max_retry_delay : ℕ
max_retry_delay = 3_600

-- In seconds: `1u64.checked_shl(attempts)` is `None` from 64 on.
unfoldable pub retry_delay : ℕ → ℕ
retry_delay attempts =
    min (if ltb attempts 64 then 2 ^ attempts else 18_446_744_073_709_551_615) max_retry_delay

-- The order of instants, which are `i64`, by a natural number.
abbrev pub instant_key : Instant → ℕ
instant_key t = pos_part t + i64_half - neg_part t

abbrev pub is_unpublished : OutboxRow → Bool
is_unpublished row = elim row.published_at [ none ↦ true | some t ↦ false ]

abbrev pub is_due : Instant → OutboxRow → Bool
is_due now row = is_unpublished row && leb_ℤ row.next_attempt_at now

abbrev pub take {ℓ} : {A : Type ℓ} → ℕ → List A → List A
take zero xs = []
take (suc n) [] = []
take (suc n) (x ∷ xs) = x ∷ take n xs

abbrev pub has_id : List Uuid → OutboxRow → Bool
has_id ids row = any (λ i. i == row.id) ids

abbrev pub by_attempt : OutboxRow → ℕ
by_attempt row = instant_key row.next_attempt_at

abbrev pub by_creation : OutboxRow → ℕ
by_creation row = instant_key row.created_at

-- The sub-select of the claim; `locked` are the rows that another dispatcher holds.
unfoldable pub claimable : (OutboxRow → Bool) → Instant → List OutboxRow → List Uuid
claimable locked now rows =
    map (λ row. row.id)
      (take batch_size
        (sort_by_key by_attempt (filter (λ row. is_due now row && not (locked row)) rows)))

abbrev pub leased : Instant → OutboxRow → OutboxRow
leased now row = record row { next_attempt_at = now +ℤ lease }

-- The claim: the table after it.
unfoldable pub claim : List Uuid → Instant → List OutboxRow → List OutboxRow
claim ids now rows = map (λ row. if has_id ids row then leased now row else row) rows

-- What comes of one row: its payload as text, and the publisher's answer or the deadline.
pub data Attempt : Type 0 where
  unserializable refused : String → Attempt
  sent late : Attempt

pub record FailedPublish : Type 0 where
  pub id : Uuid
  pub attempts_before : ℤ
  pub reason : String

pub record BatchOutcome : Type 0 where
  pub published : List Uuid
  pub failed : List FailedPublish

abbrev pub fail : OutboxRow → String → FailedPublish
fail row reason = record { id = row.id; attempts_before = row.attempts; reason = reason }

abbrev pub add_published : Uuid → BatchOutcome → BatchOutcome
add_published id outcome = record outcome { published = id ∷ outcome.published }

abbrev pub add_failed : FailedPublish → BatchOutcome → BatchOutcome
add_failed f outcome = record outcome { failed = f ∷ outcome.failed }

-- The loop over the batch, from the outcome of its rest.
unfoldable pub publish_batch : (OutboxRow → Attempt) → List OutboxRow → BatchOutcome
publish_batch publish [] = record { published = []; failed = [] }
publish_batch publish (row ∷ rows) = elim (publish row) [
  | unserializable reason ↦ add_failed (fail row reason) (publish_batch publish rows)
  | refused reason ↦ add_failed (fail row reason) (publish_batch publish rows)
  | sent ↦ add_published row.id (publish_batch publish rows)
  | late ↦ record { published = []; failed = fail row "publish exceeded the 15s batch budget" ∷ [] }
]

abbrev pub publish_row : Instant → OutboxRow → OutboxRow
publish_row later row = record row { published_at = some later }

unfoldable pub mark_published : List Uuid → Instant → List OutboxRow → List OutboxRow
mark_published ids later rows =
    map (λ row. if has_id ids row then publish_row later row else row) rows

-- `u32::try_from(attempts_before.saturating_add(1))`
abbrev pub attempts_after : ℤ → ℕ
attempts_after before = elim (before +ℤ pos 1) [
  | pos n ↦ min n 2_147_483_647
  | negsuc n ↦ 4_294_967_295
]

abbrev pub delayed : FailedPublish → Instant → ℤ → OutboxRow → OutboxRow
delayed failure later attempts row = record row {
  attempts = attempts;
  last_error = some failure.reason;
  next_attempt_at = later +ℤ pos (retry_delay (attempts_after failure.attempts_before) * second);
}

abbrev cons_row : OutboxRow → Option (List OutboxRow) → Option (List OutboxRow)
cons_row row none = none
cons_row row (some rows) = some (row ∷ rows)

abbrev delay_row :
    FailedPublish
    → Instant
    → OutboxRow
    → Option ℤ
    → Option (List OutboxRow)
    → Option (List OutboxRow)
delay_row failure later row none rest = none
delay_row failure later row (some attempts) rest =
    cons_row (delayed failure later attempts row) rest

-- One failure's statement; `none` if the count of attempts leaves its type.
unfoldable pub mark_failed : FailedPublish → Instant → List OutboxRow → Option (List OutboxRow)
mark_failed failure later [] = some []
mark_failed failure later (row ∷ rows) =
    let rest = mark_failed failure later rows in
    if row.id == failure.id
    then delay_row failure later row (check_word i32_half (row.attempts +ℤ pos 1)) rest
    else cons_row row rest

unfoldable pub mark_failures :
    List FailedPublish → Instant → List OutboxRow → Option (List OutboxRow)
mark_failures [] later rows = some rows
mark_failures (failure ∷ failures) later rows = elim (mark_failed failure later rows) [
  | none ↦ none
  | some rows' ↦ mark_failures failures later rows'
]

-- The bookkeeping transaction rolls back if a statement fails: the rows come back with the lease.
abbrev pub or_keep : List OutboxRow → Option (List OutboxRow) → List OutboxRow
or_keep rows none = rows
or_keep rows (some rows') = rows'

unfoldable pub bookkeep : BatchOutcome → Instant → List OutboxRow → List OutboxRow
bookkeep outcome later rows =
    or_keep rows (mark_failures outcome.failed later (mark_published outcome.published later rows))

unfoldable pub batch_of : List Uuid → List OutboxRow → List OutboxRow
batch_of ids rows = sort_by_key by_creation (filter (has_id ids) rows)

-- One tick: `now` is the time of the claim, `later` that of the bookkeeping.
unfoldable pub drain_once :
    (OutboxRow → Bool) → (OutboxRow → Attempt) → Instant → Instant → List OutboxRow → List OutboxRow
drain_once locked publish now later rows =
    let ids = claimable locked now rows in
    let table = claim ids now rows in
    bookkeep (publish_batch publish (batch_of ids table)) later table

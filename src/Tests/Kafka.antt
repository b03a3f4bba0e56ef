-- ===== src/Tests/Kafka.antt =====
-- The outbox and the consumer at concrete inputs.
use dream_fly_backend.Prelude.{
  ℕ, suc, ◌+◌, ltb, ◌≡◌, refl, pos, String, Bool, false, Option, none, some, List, [], ◌∷◌, arith,
  count, if◌then◌else◌, inl, ◌==◌,
}
use dream_fly_backend.Kafka.Consumer.{
  ProcessingError, transient, max_attempts, SourceMessage, Resolved, resolve_loop, Wakeup, changed,
  message, Consumed, run,
}
use dream_fly_backend.Kafka.Consumer.Audit.{
  Json, AuditLog, AuditRow, required_str, handle_audit_event,
}
use dream_fly_backend.Kafka.Consumer.Audit.Redelivery.{handle_audit_event-again}
use dream_fly_backend.Kafka.Consumer.Order.{InOrder, run-InOrder}
use dream_fly_backend.Kafka.Consumer.Retries.{Settled, resolve_loop-Settled}
use dream_fly_backend.Kafka.Outbox.{
  OutboxRow, Attempt, sent, refused, is_unpublished, claimable, claim, batch_of, drain_once,
}
use dream_fly_backend.Kafka.Outbox.Kept.{Drained, drain_once-Drained}
use dream_fly_backend.Kafka.Outbox.Rows.{Pointwise}
use dream_fly_backend.Kafka.Outbox.Progress.{Tick, drains, drains-publish}
use dream_fly_backend.Kafka.Outbox.Settled.{unlocked}
use dream_fly_backend.Tests.{noon}

abbrev event_row : OutboxRow
event_row = record {
  id = 1;
  topic = "dreamfly.orders.created";
  kafka_key = "7";
  payload = "{}";
  attempts = pos 0;
  created_at = pos 0;
  next_attempt_at = pos 0;
  published_at = none;
  last_error = none;
}

abbrev backlog : List OutboxRow
backlog = event_row ∷ record event_row { id = 2; created_at = pos 1 } ∷ []

abbrev first_only : OutboxRow → Attempt
first_only row = if row.id == 1 then sent else refused "broker down"

drain_once-Drained_example :
    let ids = claimable unlocked noon backlog in
    Pointwise
      (Drained first_only (batch_of ids (claim ids noon backlog)))
      backlog
      (drain_once unlocked first_only noon noon backlog)
drain_once-Drained_example = drain_once-Drained unlocked first_only noon noon backlog

abbrev answers : OutboxRow → Attempt
answers row = sent

abbrev tick : Tick
tick = record { now = noon; later = noon }

drains-publish_example : count is_unpublished (drains answers (tick ∷ tick ∷ []) backlog) ≡ 0
drains-publish_example =
    drains-publish answers (pos 0) (tick ∷ tick ∷ []) backlog (λ row. refl)
      (ground arith, (ground arith, tt)) refl (ground arith)

-- A handler that is refused twice by the database.
abbrev flaky : String → ℕ → Option ProcessingError × ℕ
flaky payload n = (if ltb n 2 then some (transient "connection closed") else none, suc n)

abbrev running : ℕ → Bool
running attempt = false

resolve_loop-Settled_example :
    (r : Resolved ℕ) × (resolve_loop flaky max_attempts running "{}" 1 0 ≡ some r)
    × Settled flaky "{}" running 0 r
resolve_loop-Settled_example = resolve_loop-Settled flaky "{}" running 0

abbrev decode : List ℕ → Option String
decode bytes = some "{}"

abbrev msg : SourceMessage
msg = record {
  topic = "dreamfly.audit.log";
  partition = pos 0;
  offset = pos 41;
  payload = some (123 ∷ 125 ∷ []);
}

abbrev stream : List Wakeup
stream =
    message msg running
    ∷ changed false
    ∷ message (record msg { offset = pos 42; payload = none }) running
    ∷ []

run-InOrder_example : (c : Consumed ℕ) × (run flaky decode stream 0 ≡ some c) × InOrder stream c
run-InOrder_example = run-InOrder flaky decode stream 0

-- A JSON in which every member is the text itself.
abbrev json : Json String
json = record {
  from_str = λ text. inl text;
  get = λ value field. some value;
  as_str = λ value. some value;
  parse_uuid = λ text. some 7;
  empty_object = "";
}

abbrev empty_log : AuditLog String
empty_log = record { rows = []; uuids = λ n. 1_000 + n; drawn = 0 }

handle_audit_event-again_example :
    let log = (handle_audit_event json noon none "order_created" empty_log).1 in
    ((handle_audit_event json (pos 0) (some "gone") "order_created" log).1 ≡ log)
    × (count (λ (r : AuditRow String). r.id == 7) log.rows ≡ 1)
unfolding handle_audit_event required_str
handle_audit_event-again_example =
    handle_audit_event-again json noon (pos 0) (some "gone") "order_created" 7 empty_log refl
      (ground arith) refl

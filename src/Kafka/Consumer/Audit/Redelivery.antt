-- ===== src/Kafka/Consumer/Audit/Redelivery.antt =====
-- src/kafka/consumer.rs: an event that is delivered again leaves the audit log as it is.
use dream_fly_backend.Prelude.{
  ◌≤◌, ◌≡◌, ◌⊎◌, refl, String, true, false, Option, none, some, List, [], ◌∷◌, any, count,
  count-append, ◌==◌, ==_refl, arith, Bool-cases, inl, inr,
}
use dream_fly_backend.Base.{Uuid, Instant}
use dream_fly_backend.Kafka.Consumer.Audit.{
  AuditRow, AuditLog, Json, event_id, event_row_id, required_str, holds, insert_audit, execute,
  audit_row, handle_audit_event,
}

sum-cases : {A B : Type 0} (o : A ⊎ B) → ((a : A) × (o ≡ inl a)) ⊎ ((b : B) × (o ≡ inr b))
sum-cases (inl a) = inl (a, refl)
sum-cases (inr b) = inr (b, refl)

module _ {V : Type 0} where
  count-none :
      (id : Uuid) (rows : List (AuditRow V))
      → any (λ row. row.id == id) rows ≡ false
      → count (λ row. row.id == id) rows ≡ 0
  count-none id [] h = refl
  count-none id (row ∷ rows) h = ground (arith, count-none id rows, h)

  count-some :
      (id : Uuid) (rows : List (AuditRow V))
      → any (λ row. row.id == id) rows ≡ true
      → 1 ≤ count (λ row. row.id == id) rows
  count-some id [] h = absurd (ground arith)
  count-some id (row ∷ rows) h = ground (arith, count-some id rows, h)

  holds-count :
      (id : Uuid) (rows : List (AuditRow V))
      → 1 ≤ count (λ row. row.id == id) rows
      → any (λ row. row.id == id) rows ≡ true
  holds-count id rows h = elim (Bool-cases (any (λ row. row.id == id) rows)) [
    | inl e ↦ e
    | inr e ↦ absurd (omega (arith, count-none id rows e, h))
  ]

module _ {V : Type 0} (json : Json V) where
  -- The id that a payload carries.
  abbrev pub payload_id : String → Option Uuid
  payload_id payload = elim (json.from_str payload) [
    | inl event ↦ event_id json event
    | inr reason ↦ none
  ]

  count-insert :
      (row : AuditRow V) (log : AuditLog V)
      → count (λ r. r.id == row.id) log.rows ≤ 1
      → count (λ r. r.id == row.id) (insert_audit json row log).rows ≡ 1
  unfolding insert_audit
  count-insert row log h = elim (Bool-cases (holds json row.id log.rows)) [
    | inl old ↦ rw old (omega (arith, h, count-some row.id log.rows old))
    | inr fresh ↦ rw fresh (
        ground (
          arith,
          count-append (λ r. r.id == row.id) log.rows (row ∷ []),
          count-none row.id log.rows fresh,
          ==_refl row.id,
        ))
  ]

  insert_audit-held :
      (row : AuditRow V) (log : AuditLog V)
      → holds json row.id log.rows ≡ true
      → insert_audit json row log ≡ log
  unfolding insert_audit
  insert_audit-held row log h = rw h refl

  execute-again :
      (row row' : AuditRow V) (refusal : Option String) (log : AuditLog V)
      → row'.id ≡ row.id
      → count (λ r. r.id == row.id) (insert_audit json row log).rows ≡ 1
      → (execute json refusal row' (insert_audit json row log)).1 ≡ insert_audit json row log
  execute-again row row' (some reason) log same one = refl
  execute-again row row' none log same one =
      insert_audit-held row' (insert_audit json row log)
        (rw same (holds-count row.id (insert_audit json row log).rows (omega (arith, one))))

  -- How an event that carries an id is handled.
  handle_audit_event-execute :
      {event : V} {action : String} {id : Uuid} (now : Instant) (refusal : Option String)
      (payload : String) (log : AuditLog V)
      → json.from_str payload ≡ inl event
      → required_str json event "event_type" ≡ inl action
      → event_id json event ≡ some id
      → handle_audit_event json now refusal payload log
        ≡ execute json refusal (audit_row json event action id now) log
  unfolding handle_audit_event event_row_id
  handle_audit_event-execute now refusal payload log parsed typed named =
      rw (parsed, handle_audit_event) (rw typed (rw (named, event_row_id) refl))

  -- An event of the producers carries its id, so a message that is delivered again changes nothing:
  -- after a first handling that succeeds, a further one, whether its statement succeeds or fails,
  -- leaves the log as it is, with one row of that id.
  pub handle_audit_event-again :
      (now now' : Instant) (refusal' : Option String) (payload : String) (id : Uuid)
      (log : AuditLog V)
      → payload_id payload ≡ some id
      → count (λ (r : AuditRow V). r.id == id) log.rows ≤ 1
      → (handle_audit_event json now none payload log).0 ≡ none
      → let log' = (handle_audit_event json now none payload log).1 in
        ((handle_audit_event json now' refusal' payload log').1 ≡ log')
        × (count (λ (r : AuditRow V). r.id == id) log'.rows ≡ 1)
  unfolding handle_audit_event
  handle_audit_event-again now now' refusal' payload id log pid one ok =
      elim (sum-cases (json.from_str payload)) [
        | inr (reason, bad) ↦ absurd (ground (arith, rw (bad, payload_id) at pid))
        | inl (event, parsed) ↦
            let named : event_id json event ≡ some id = rw (parsed, payload_id) at pid in
            elim (sum-cases (required_str json event "event_type")) [
              | inr (missing, bad) ↦
                  absurd (ground (arith, rw (parsed, handle_audit_event) at ok, bad))
              | inl (action, typed) ↦
                  let row = audit_row json event action id now in
                  let row' = audit_row json event action id now' in
                  let one' = count-insert row log one in
                  rw
                    (
                      handle_audit_event-execute now none payload log parsed typed named,
                      handle_audit_event-execute now' refusal' payload (insert_audit json row log)
                          parsed typed named,
                    )
                    (execute-again row row' refusal' log refl one', one')
            ]
      ]

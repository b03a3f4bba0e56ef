-- ===== src/Kafka/Consumer/Audit.antt =====
-- src/kafka/consumer.rs: `handle_audit_event`, which writes an event into `audit_log`.
pub mod Redelivery
use dream_fly_backend.Prelude.{
  ℕ, ◌+◌, ℤ, String, Bool, Option, none, some, List, [], ◌∷◌, ◌++◌, any, ◌==◌, if◌then◌else◌, ◌⊎◌,
  inl, inr, and_then,
}
use dream_fly_backend.Base.{Uuid, Instant}
use dream_fly_backend.Kafka.Events.{EventSpec, spec_for_event_type}
use dream_fly_backend.Kafka.Consumer.{ProcessingError, transient, poison}

pub record AuditRow (V : Type 0) : Type 0 where
  pub id : Uuid
  pub user_id : Option Uuid
  pub action : String
  pub resource : String
  pub resource_id : Option Uuid
  pub new_value : V
  pub created_at : Instant

-- The table, and the supply of `Uuid::now_v7`.
pub record AuditLog (V : Type 0) : Type 0 where
  pub rows : List (AuditRow V)
  pub uuids : ℕ → Uuid
  pub drawn : ℕ

abbrev pub unwrap_or : {A : Type 0} → Option A → A → A
unwrap_or none a = a
unwrap_or (some b) a = b

unfoldable pub domain_resource : String → Option (String × String)
domain_resource event_type = elim (spec_for_event_type event_type) [
  | none ↦ none
  | some s ↦ some (s.resource, s.id_field)
]

-- `V` is `serde_json::Value`; the crates' functions are parameters.
pub record Json (V : Type 0) : Type 0 where
  pub from_str : String → V ⊎ String
  pub get : V → String → Option V
  pub as_str : V → Option String
  pub parse_uuid : String → Option Uuid
  pub empty_object : V

module _ {V : Type 0} (json : Json V) where
  unfoldable pub required_str : V → String → String ⊎ ProcessingError
  required_str event field = elim (and_then (json.get event field) json.as_str) [
    | some text ↦ inl text
    | none ↦ inr (poison "missing or non-string field")
  ]

  unfoldable pub optional_uuid_from_data : V → String → Option Uuid
  optional_uuid_from_data event field =
      and_then (and_then (and_then (json.get event "data") (λ d. json.get d field)) json.as_str)
        json.parse_uuid

  abbrev pub event_id : V → Option Uuid
  event_id event = and_then (and_then (json.get event "event_id") json.as_str) json.parse_uuid

  -- A fresh id is drawn if the event brings none.
  unfoldable pub event_row_id : V → AuditLog V → Uuid × AuditLog V
  event_row_id event log = elim (event_id event) [
    | some id ↦ (id, log)
    | none ↦ (log.uuids log.drawn, record log { drawn = log.drawn + 1 })
  ]

  unfoldable pub resource_of : V → String → String × Option Uuid
  resource_of event action = elim (domain_resource action) [
    | some (resource, id_field) ↦ (resource, optional_uuid_from_data event id_field)
    | none ↦ (
      unwrap_or
          (and_then (and_then (json.get event "data") (λ d. json.get d "resource")) json.as_str)
          "audit",
      optional_uuid_from_data event "resource_id",
    )
  ]

  abbrev pub holds : Uuid → List (AuditRow V) → Bool
  holds id rows = any (λ row. row.id == id) rows

  -- `INSERT … ON CONFLICT (id) DO NOTHING`
  unfoldable pub insert_audit : AuditRow V → AuditLog V → AuditLog V
  insert_audit row log =
      if holds row.id log.rows then log else record log { rows = log.rows ++ row ∷ [] }

  abbrev pub audit_row : V → String → Uuid → Instant → AuditRow V
  audit_row event action id now = record {
    id = id;
    user_id = optional_uuid_from_data event "user_id";
    action = action;
    resource = (resource_of event action).0;
    resource_id = (resource_of event action).1;
    new_value = unwrap_or (json.get event "data") json.empty_object;
    created_at = now;
  }

  -- `refusal` is the error of the statement, if the database reports one.
  abbrev pub execute : Option String → AuditRow V → AuditLog V → Option ProcessingError × AuditLog V
  execute (some reason) row log = (some (transient reason), log)
  execute none row log = (none, insert_audit row log)

  unfoldable pub handle_audit_event :
      Instant → Option String → String → AuditLog V → Option ProcessingError × AuditLog V
  handle_audit_event now refusal payload log = elim (json.from_str payload) [
    | inr reason ↦ (some (poison reason), log)
    | inl event ↦ elim (required_str event "event_type") [
      | inr missing ↦ (some missing, log)
      | inl action ↦
          let drawn = event_row_id event log in
          execute refusal (audit_row event action drawn.0 now) drawn.1
    ]
  ]

-- ===== src/Kafka/Events.antt =====
-- src/kafka/events.rs: the table of domain events that the producers and the consumer share.
use dream_fly_backend.Prelude.{String, Option, List, [], ◌∷◌, find}
use text.Mathlib.Text.{◌==◌ as str_eq}

pub record EventSpec : Type 0 where
  pub topic : String
  pub event_type : String
  pub resource : String
  pub id_field : String

abbrev pub order_created_spec : EventSpec
order_created_spec = record {
  topic = "dreamfly.orders.created";
  event_type = "order_created";
  resource = "order";
  id_field = "order_id";
}

abbrev pub order_status_changed_spec : EventSpec
order_status_changed_spec = record {
  topic = "dreamfly.orders.status_changed";
  event_type = "order_status_changed";
  resource = "order";
  id_field = "order_id";
}

abbrev pub booking_created_spec : EventSpec
booking_created_spec = record {
  topic = "dreamfly.bookings.created";
  event_type = "booking_created";
  resource = "booking";
  id_field = "booking_id";
}

abbrev pub booking_cancelled_spec : EventSpec
booking_cancelled_spec = record {
  topic = "dreamfly.bookings.cancelled";
  event_type = "booking_cancelled";
  resource = "booking";
  id_field = "booking_id";
}

abbrev pub user_registered_spec : EventSpec
user_registered_spec = record {
  topic = "dreamfly.users.registered";
  event_type = "user_registered";
  resource = "user";
  id_field = "user_id";
}

abbrev pub all_specs : List EventSpec
all_specs =
    order_created_spec ∷ order_status_changed_spec ∷ booking_created_spec ∷ booking_cancelled_spec
    ∷ user_registered_spec ∷ []

unfoldable pub spec_for_event_type : String → Option EventSpec
spec_for_event_type event_type = find (λ s. str_eq s.event_type event_type) all_specs

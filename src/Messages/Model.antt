-- ===== src/Messages/Model.antt =====
-- src/modules/messages/model.rs
use dream_fly_backend.Prelude.{String, Option}
use dream_fly_backend.Base.{Uuid, Instant}

pub record Conversation : Type 0 where
  pub id : Uuid
  pub member_id : Uuid
  pub coach_id : Uuid
  pub last_message_at : Option Instant

pub record ChatMessage : Type 0 where
  pub id : Uuid
  pub conversation_id : Uuid
  pub sender_id : Uuid
  pub body : String
  pub read_at : Option Instant

pub record ConversationParticipants : Type 0 where
  pub member_id : Uuid
  pub coach_id : Uuid

-- ===== src/Events.antt =====
-- src/events.rs: the event types, their wire names and the event that a handler receives.
pub mod Names
mod Tests
use pacto_bot_api.Prelude.{
  ℕ, String, Bool, true, false, Option, List, HasEq, nat_beq, ◌≡◌, ◌↔◌, arith,
}

pub data EventType : Type 0 where
  dm_received mls_welcome_received mls_group_message_received : EventType
  reaction_received attachment_received : EventType
  mls_group_reaction_received mls_group_attachment_received : EventType
  bot_unavailable : EventType

-- `EventType::as_wire_name`
unfoldable pub as_wire_name : EventType → String
as_wire_name dm_received = "dm_received"
as_wire_name mls_welcome_received = "mls_welcome_received"
as_wire_name mls_group_message_received = "mls_group_message_received"
as_wire_name reaction_received = "reaction_received"
as_wire_name attachment_received = "attachment_received"
as_wire_name mls_group_reaction_received = "mls_group_reaction_received"
as_wire_name mls_group_attachment_received = "mls_group_attachment_received"
as_wire_name bot_unavailable = "bot_unavailable"

-- `ReactionPayload`
pub record Reaction : Type 0 where
  pub target_rumor_id : String
  pub emoji : String

-- `AttachmentPayload`
pub record Attachment : Type 0 where
  pub mime_type : String
  pub size : ℕ
  pub ox : Option String
  pub filename : Option String
  pub blurhash : Option String
  pub dim : Option String
  pub path : String
  pub expires_at : ℕ

pub data BotUnavailableReason : Type 0 where
  state_lost engine_unavailable : BotUnavailableReason

pub record AgentEvent : Type 0 where
  pub bot_id : String
  pub event_id : String
  pub event_type : EventType
  pub chat_id : Option String
  pub content : String
  pub mentions : List String
  pub is_mentioned : Bool
  pub mentioned_bot_ids : List String
  pub pacto_virtual_bucket : Option String
  pub rumor_id : String
  pub author : String
  pub timestamp : ℕ
  pub reaction : Option Reaction
  pub attachment : Option Attachment
  pub bot_unavailable : Option BotUnavailableReason

-- The declaration's position of an event type, by which two are compared.
abbrev index : EventType → ℕ
index dm_received = 0
index mls_welcome_received = 1
index mls_group_message_received = 2
index reaction_received = 3
index attachment_received = 4
index mls_group_reaction_received = 5
index mls_group_attachment_received = 6
index bot_unavailable = 7

-- `#[derive(PartialEq)]`
abbrev pub event_type_beq : EventType → EventType → Bool
event_type_beq a b = nat_beq (index a) (index b)

pub event_type_beq_iff : (a b : EventType) → (event_type_beq a b ≡ true) ↔ (a ≡ b)
event_type_beq_iff a b = ground arith

instance abbrev pub event_type_eq : HasEq EventType
event_type_eq = record { eqb = event_type_beq; eqb_iff = event_type_beq_iff }

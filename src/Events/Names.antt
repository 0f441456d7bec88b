-- ===== src/Events/Names.antt =====
-- Wire names of events: the parser of src/handlers.rs and the names of src/events.rs fit together.
use pacto_bot_api.Prelude.{String, ◌≡◌, refl, ◌↔◌, arith, eq_iff, ◌==◌, string_eq, if◌then◌else◌}
use pacto_bot_api.Errors.{Result, ok, err, invalid_event_type}
use pacto_bot_api.Events.{EventType, as_wire_name}

-- `parse_event_type` of src/handlers.rs
unfoldable pub parse_event_type : String → Result EventType
parse_event_type s =
    if s == "dm_received"
    then ok EventType.dm_received
    else if s == "mls_welcome_received"
    then ok EventType.mls_welcome_received
    else if s == "mls_group_message_received"
    then ok EventType.mls_group_message_received
    else if s == "reaction_received"
    then ok EventType.reaction_received
    else if s == "attachment_received"
    then ok EventType.attachment_received
    else if s == "mls_group_reaction_received"
    then ok EventType.mls_group_reaction_received
    else if s == "mls_group_attachment_received"
    then ok EventType.mls_group_attachment_received
    else if s == "bot_unavailable"
    then ok EventType.bot_unavailable
    else err (invalid_event_type s)

parse-wire_name : (t : EventType) → parse_event_type (as_wire_name t) ≡ ok t
unfolding parse_event_type as_wire_name
parse-wire_name EventType.dm_received = refl
parse-wire_name _ = refl

wire_name_of_parsed : (s : String) (t : EventType) → parse_event_type s ≡ ok t → s ≡ as_wire_name t
unfolding parse_event_type as_wire_name
wire_name_of_parsed s t h = ground (
  arith,
  eq_iff s "dm_received",
  eq_iff s "mls_welcome_received",
  eq_iff s "mls_group_message_received",
  eq_iff s "reaction_received",
  eq_iff s "attachment_received",
  eq_iff s "mls_group_reaction_received",
  eq_iff s "mls_group_attachment_received",
  eq_iff s "bot_unavailable",
)

-- A text is accepted as an event type exactly when it is the wire name of that type.
pub parse_event_type_iff :
    (s : String) (t : EventType) → (parse_event_type s ≡ ok t) ↔ (s ≡ as_wire_name t)
parse_event_type_iff s t = (wire_name_of_parsed s t, λ e. rw e (parse-wire_name t))

-- ===== src/Events/Tests.antt =====
-- Tests of src/events.rs and of the parser of event types.
use pacto_bot_api.Prelude.{String, ◌≡◌, refl, ◌↔◌}
use pacto_bot_api.Errors.{ok, err, invalid_event_type}
use pacto_bot_api.Events.{EventType, as_wire_name}
use pacto_bot_api.Events.Names.{parse_event_type, parse_event_type_iff}

parse_event_type_iff_test :
    (parse_event_type "bot_unavailable" ≡ ok EventType.bot_unavailable)
    ↔ (◌≡◌ {A = String} "bot_unavailable" "bot_unavailable")
unfolding as_wire_name
parse_event_type_iff_test = parse_event_type_iff "bot_unavailable" EventType.bot_unavailable

rejects_unknown : parse_event_type "dm" ≡ err (invalid_event_type "dm")
unfolding parse_event_type
rejects_unknown = refl

-- ===== src/Protocol/Tests.antt =====
-- Tests of the method catalogue of src/transport/protocol.rs.
use pacto_bot_api.Prelude.{String, ◌≡◌, refl, ◌↔◌}
use pacto_bot_api.Errors.{ok, err, method_not_found}
use pacto_bot_api.Protocol.{Method, wire_name, parse_method}
use pacto_bot_api.Protocol.Catalog.{parse_method_iff}

parse_method_iff_example :
    (parse_method "agent.send_dm" ≡ ok Method.agent_send_dm)
    ↔ (◌≡◌ {A = String} "agent.send_dm" "agent.send_dm")
unfolding wire_name
parse_method_iff_example = parse_method_iff "agent.send_dm" Method.agent_send_dm

rejects_unknown : parse_method "agent.unknown" ≡ err method_not_found
unfolding parse_method
rejects_unknown = refl

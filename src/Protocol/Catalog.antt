-- ===== src/Protocol/Catalog.antt =====
-- The catalogue of src/transport/protocol.rs: wire names and their parser fit together.
use pacto_bot_api.Prelude.{String, ◌≡◌, refl, ◌==◌, string_eq, eq_iff, arith, if◌then◌else◌, ◌↔◌}
use pacto_bot_api.Errors.{Result, ok, err, method_not_found}
use pacto_bot_api.Protocol.{Method, wire_name, parse_method}

parse_method-wire_name : (m : Method) → parse_method (wire_name m) ≡ ok m
unfolding parse_method wire_name
parse_method-wire_name Method.handler_register = refl
parse_method-wire_name Method.handler_reconnect = refl
parse_method-wire_name Method.handler_unregister = refl
parse_method-wire_name Method.agent_send_dm = refl
parse_method-wire_name Method.agent_send_reaction = refl
parse_method-wire_name Method.agent_send_attachment = refl
parse_method-wire_name Method.agent_set_profile = refl
parse_method-wire_name Method.agent_error = refl
parse_method-wire_name Method.handler_response = refl
parse_method-wire_name Method.agent_event = refl
parse_method-wire_name Method.agent_status = refl
parse_method-wire_name Method.agent_metrics = refl
parse_method-wire_name Method.agent_list_handlers = refl
parse_method-wire_name Method.agent_unregister_handler = refl
parse_method-wire_name Method.system_version = refl
parse_method-wire_name Method.system_health = refl
parse_method-wire_name Method.agent_version = refl
parse_method-wire_name Method.agent_rate_limited = refl
parse_method-wire_name Method.agent_is_squad_member = refl
parse_method-wire_name Method.agent_delete_mls_group = refl
parse_method-wire_name Method.agent_exit_mls_group = refl
parse_method-wire_name Method.agent_send_group_message = refl
parse_method-wire_name Method.agent_send_group_reaction = refl
parse_method-wire_name Method.agent_send_group_attachment = refl
parse_method-wire_name Method.agent_publish_key_package = refl
parse_method-wire_name Method.admin_send_test_dm = refl
parse_method-wire_name Method.admin_create_mls_group = refl
parse_method-wire_name Method.admin_invite_to_mls_group = refl
parse_method-wire_name Method.agent_create_mls_group = refl
parse_method-wire_name Method.agent_invite_to_mls_group = refl
parse_method-wire_name Method.admin_repair_mls_group_admins = refl

-- One arm of the parser's `match`: the text of the arm, or what the arms below it accept.
arm :
    (s : String) (m k : Method) (rest : Result Method)
    → (rest ≡ ok m → s ≡ wire_name m)
    → (if s == wire_name k then ok k else rest) ≡ ok m
    → s ≡ wire_name m
arm s m k rest below h = ground (arith, eq_iff s (wire_name k), below)

nothing_below : (s : String) (m : Method) → err method_not_found ≡ ok m → s ≡ wire_name m
nothing_below s m h = cc

wire_name_of_parsed : (s : String) (m : Method) → parse_method s ≡ ok m → s ≡ wire_name m
unfolding parse_method wire_name
wire_name_of_parsed s m = arm s m Method.handler_register _ (
    arm s m Method.handler_reconnect _ (
      arm s m Method.handler_unregister _ (
        arm s m Method.agent_send_dm _ (
          arm s m Method.agent_send_reaction _ (
            arm s m Method.agent_send_attachment _ (
              arm s m Method.agent_set_profile _ (
                arm s m Method.agent_error _ (
                  arm s m Method.handler_response _ (
                    arm s m Method.agent_event _ (
                      arm s m Method.agent_status _ (
                        arm s m Method.agent_metrics _ (
                          arm s m Method.agent_list_handlers _ (
                            arm s m Method.agent_unregister_handler _ (
                              arm s m Method.system_version _ (
                                arm s m Method.system_health _ (
                                  arm s m Method.agent_version _ (
                                    arm s m Method.agent_rate_limited _ (
                                      arm s m Method.agent_is_squad_member _ (
                                        arm s m Method.agent_delete_mls_group _ (
                                          arm s m Method.agent_exit_mls_group _ (
                                            arm s m Method.agent_send_group_message _ (
                                              arm s m Method.agent_send_group_reaction _ (
                                                arm s m Method.agent_send_group_attachment _ (
                                                  arm s m Method.agent_publish_key_package _ (
                                                    arm s m Method.admin_send_test_dm _ (
                                                      arm s m Method.admin_create_mls_group _ (
                                                        arm s m Method.admin_invite_to_mls_group _ (
                                                          arm s m Method.agent_create_mls_group _ (
                                                            arm s m Method.agent_invite_to_mls_group
                                                            _
                                                            (arm s m
                                                            Method.admin_repair_mls_group_admins _
                                                            (nothing_below s
                                                            m)))))))))))))))))))))))))))))))

-- A text is accepted as a method exactly when it is the wire name of that method.
pub parse_method_iff : (s : String) (m : Method) → (parse_method s ≡ ok m) ↔ (s ≡ wire_name m)
parse_method_iff s m = (wire_name_of_parsed s m, λ e. rw e (parse_method-wire_name m))

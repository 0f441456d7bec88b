-- ===== src/Protocol/Methods.antt =====
-- `Method` of src/transport/protocol.rs, its wire names (the `serde` renames) and its parser.
use pacto_bot_api.Prelude.{String, List, [], ◌∷◌, ◌==◌, string_eq, if◌then◌else◌}
use pacto_bot_api.Errors.{Result, ok, err, method_not_found}

pub data Method : Type 0 where
  handler_register handler_reconnect handler_unregister : Method
  agent_send_dm agent_send_reaction agent_send_attachment : Method
  agent_set_profile agent_error handler_response : Method
  agent_event agent_status agent_metrics : Method
  agent_list_handlers agent_unregister_handler system_version : Method
  system_health agent_version agent_rate_limited : Method
  agent_is_squad_member agent_exit_mls_group agent_delete_mls_group : Method
  agent_send_group_message agent_send_group_reaction agent_send_group_attachment : Method
  agent_publish_key_package admin_send_test_dm admin_create_mls_group : Method
  admin_invite_to_mls_group agent_create_mls_group agent_invite_to_mls_group : Method
  admin_repair_mls_group_admins : Method

-- `#[serde(rename = …)]`
unfoldable pub wire_name : Method → String
wire_name handler_register = "handler.register"
wire_name handler_reconnect = "handler.reconnect"
wire_name handler_unregister = "handler.unregister"
wire_name agent_send_dm = "agent.send_dm"
wire_name agent_send_reaction = "agent.send_reaction"
wire_name agent_send_attachment = "agent.send_attachment"
wire_name agent_set_profile = "agent.set_profile"
wire_name agent_error = "agent.error"
wire_name handler_response = "handler.response"
wire_name agent_event = "agent.event"
wire_name agent_status = "agent.status"
wire_name agent_metrics = "agent.metrics"
wire_name agent_list_handlers = "agent.list_handlers"
wire_name agent_unregister_handler = "agent.unregister_handler"
wire_name system_version = "system.version"
wire_name system_health = "system.health"
wire_name agent_version = "agent.version"
wire_name agent_rate_limited = "agent.rate_limited"
wire_name agent_is_squad_member = "agent.is_squad_member"
wire_name agent_exit_mls_group = "agent.exit_mls_group"
wire_name agent_delete_mls_group = "agent.delete_mls_group"
wire_name agent_send_group_message = "agent.send_group_message"
wire_name agent_send_group_reaction = "agent.send_group_reaction"
wire_name agent_send_group_attachment = "agent.send_group_attachment"
wire_name agent_publish_key_package = "agent.publish_key_package"
wire_name admin_send_test_dm = "admin.send_test_dm"
wire_name admin_create_mls_group = "admin.create_mls_group"
wire_name admin_invite_to_mls_group = "admin.invite_to_mls_group"
wire_name agent_create_mls_group = "agent.create_mls_group"
wire_name agent_invite_to_mls_group = "agent.invite_to_mls_group"
wire_name admin_repair_mls_group_admins = "admin.repair_mls_group_admins"

-- `Method::all`
unfoldable pub all : List Method
all =
    handler_register ∷ handler_reconnect ∷ handler_unregister ∷ agent_send_dm ∷ agent_send_reaction
    ∷ agent_send_attachment ∷ agent_set_profile ∷ agent_error ∷ handler_response ∷ agent_event
    ∷ agent_status ∷ agent_metrics ∷ agent_list_handlers ∷ agent_unregister_handler ∷ system_version
    ∷ system_health ∷ agent_version ∷ agent_rate_limited ∷ agent_is_squad_member
    ∷ agent_exit_mls_group ∷ agent_delete_mls_group ∷ agent_send_group_message
    ∷ agent_send_group_reaction ∷ agent_send_group_attachment ∷ agent_publish_key_package
    ∷ admin_send_test_dm ∷ admin_create_mls_group ∷ admin_invite_to_mls_group
    ∷ agent_create_mls_group ∷ agent_invite_to_mls_group ∷ admin_repair_mls_group_admins ∷ []

-- `Method::from_str`, which `parse_method` calls.
unfoldable pub parse_method : String → Result Method
parse_method s =
    if s == "handler.register"
    then ok handler_register
    else if s == "handler.reconnect"
    then ok handler_reconnect
    else if s == "handler.unregister"
    then ok handler_unregister
    else if s == "agent.send_dm"
    then ok agent_send_dm
    else if s == "agent.send_reaction"
    then ok agent_send_reaction
    else if s == "agent.send_attachment"
    then ok agent_send_attachment
    else if s == "agent.set_profile"
    then ok agent_set_profile
    else if s == "agent.error"
    then ok agent_error
    else if s == "handler.response"
    then ok handler_response
    else if s == "agent.event"
    then ok agent_event
    else if s == "agent.status"
    then ok agent_status
    else if s == "agent.metrics"
    then ok agent_metrics
    else if s == "agent.list_handlers"
    then ok agent_list_handlers
    else if s == "agent.unregister_handler"
    then ok agent_unregister_handler
    else if s == "system.version"
    then ok system_version
    else if s == "system.health"
    then ok system_health
    else if s == "agent.version"
    then ok agent_version
    else if s == "agent.rate_limited"
    then ok agent_rate_limited
    else if s == "agent.is_squad_member"
    then ok agent_is_squad_member
    else if s == "agent.delete_mls_group"
    then ok agent_delete_mls_group
    else if s == "agent.exit_mls_group"
    then ok agent_exit_mls_group
    else if s == "agent.send_group_message"
    then ok agent_send_group_message
    else if s == "agent.send_group_reaction"
    then ok agent_send_group_reaction
    else if s == "agent.send_group_attachment"
    then ok agent_send_group_attachment
    else if s == "agent.publish_key_package"
    then ok agent_publish_key_package
    else if s == "admin.send_test_dm"
    then ok admin_send_test_dm
    else if s == "admin.create_mls_group"
    then ok admin_create_mls_group
    else if s == "admin.invite_to_mls_group"
    then ok admin_invite_to_mls_group
    else if s == "agent.create_mls_group"
    then ok agent_create_mls_group
    else if s == "agent.invite_to_mls_group"
    then ok agent_invite_to_mls_group
    else if s == "admin.repair_mls_group_admins"
    then ok admin_repair_mls_group_admins
    else err method_not_found

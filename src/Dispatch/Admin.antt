-- ===== src/Dispatch/Admin.antt =====
-- The requests of src/dispatch.rs that an administrator makes over the handlers.
use pacto_bot_api.Prelude.{
  ℕ, String, Bool, true, false, Option, none, some, List, map, contains, string_eq, ◌==◌,
  if◌then◌else◌,
}
use pacto_bot_api.Errors.{ok_or, config, handler_not_registered, unauthorized_bot}
use pacto_bot_api.Events.{as_wire_name}
use pacto_bot_api.Handlers.{HandlerRef, Channels, get_handler, all_handlers, is_connected, is_stale}
use pacto_bot_api.Dispatch.State.{DbFaults, Exec, ◌>>=◌, ◌>>◌, done, fail, lift, gets}
use pacto_bot_api.Dispatch.Actions.{Params}
use pacto_bot_api.Dispatch.Lifecycle.{unregister_handler}
use pacto_bot_api.Dispatch.Responses.{admit}

-- `target_handler_id == Some(caller_id)`
unfoldable pub is_target : String → Option String → Bool
is_target caller none = false
is_target caller (some target) = target == caller

-- `Dispatch::require_admin_or_self`
unfoldable pub require_admin_or_self : Option String → Option String → Exec (Unit {0})
unfolding is_target
require_admin_or_self caller_id target = do
  caller ← lift (ok_or caller_id handler_not_registered)
  if is_target caller target then done tt else (do
    s ← gets (λ s. s)
    h ← lift (ok_or (get_handler caller s.registry) handler_not_registered)
    if contains h.capabilities "Admin" then done tt else fail unauthorized_bot)

-- `Dispatch::handle_admin_unregister_handler`
unfoldable pub handle_admin_unregister_handler :
    DbFaults → Option String → Option Params → Exec Bool
unfolding require_admin_or_self unregister_handler
handle_admin_unregister_handler db caller_id params = do
  value ← lift (ok_or params (config "agent.unregister_handler missing params"))
  id ← lift (ok_or (value "handler_id") (config "agent.unregister_handler missing handler_id"))
  require_admin_or_self caller_id (some id)
  unregister_handler db id
  done true

-- `AgentListHandlersEntry`
pub record Entry : Type 0 where
  pub handler_id : String
  pub bot_ids : List String
  pub event_types : List String
  pub capabilities : List String
  pub connected : Bool
  pub state : String
  pub transport : String
  pub last_seen : ℕ
  pub registered_at : ℕ

-- The closure of `handle_list_handlers` on one handler.
unfoldable pub entry : Channels → ℕ → ℕ → HandlerRef → Entry
unfolding is_connected is_stale as_wire_name
entry net now stale_timeout h = record {
  handler_id = h.id;
  bot_ids = h.bot_ids;
  event_types = map as_wire_name h.event_types;
  capabilities = h.capabilities;
  connected = is_connected net h;
  state =
      if is_connected net h
      then "connected"
      else if is_stale net now stale_timeout h
      then "stale"
      else "disconnected";
  transport = h.transport;
  last_seen = h.last_seen;
  registered_at = h.registered_at;
}

-- `Dispatch::handle_list_handlers`
unfoldable pub handle_list_handlers : Channels → ℕ → ℕ → Option String → Exec (List Entry)
unfolding require_admin_or_self entry
handle_list_handlers net now stale_timeout caller_id = do
  require_admin_or_self caller_id none
  s ← gets (λ s. s)
  done (map (entry net now stale_timeout) (all_handlers s.registry))

-- `Dispatch::require_mls_agent_capability`: who has no handler id comes from the admin's command
-- line and passes.
unfoldable pub require_mls_agent_capability :
    ℕ → ℕ → Option String → String → String → Exec (Unit {0})
unfolding admit
require_mls_agent_capability clock now none bot_id capability = done tt
require_mls_agent_capability clock now (some hid) bot_id capability = do
  admitted ← admit clock now (some hid) bot_id capability
  done tt

-- ===== src/Dispatch/Lifecycle.antt =====
-- How handlers come and go in src/dispatch.rs: registration, reconnection, removal, the reaper and
-- the restart. A notice is sent at best; the list of those that a method sends is its output.
use pacto_bot_api.Prelude.{
  ℕ, ◌+◌, ◌-◌, ◌*◌, ◌/◌, ◌%◌, ◌^◌, String, Bool, true, Option, none, some, List, [], ◌∷◌, length,
  map, keep, string_eq,
}
use pacto_bot_api.Prelude.Dict.{Dict, insert, remove}
use pacto_bot_api.Errors.{Result, ok, err, ok_or, config, handler_not_registered}
use pacto_bot_api.Events.{event_type_eq, BotUnavailableReason, as_wire_name}
use pacto_bot_api.Handlers.{
  HandlerRef, HandlerRegistry, HandlerRegistration, ConnectionHandle, Channels, Draw, TokenCodec,
  register, reconnect, restore, unregister, is_stale, get_handler, all_handlers,
}
use pacto_bot_api.Limits.{remove_handler, second}
use pacto_bot_api.Dispatch.Notices.{notify_bot_unavailable_on_registration, collect_own_pubkeys}
use pacto_bot_api.Dispatch.State.{
  Dispatch, HandlerRow, Tables, DbFaults, Exec, ◌>>=◌, ◌>>◌, done, lift, gets, modify, write,
  bot_configs, and_then,
}

-- `AtomicU64`: `fetch_add(1)` and `fetch_sub(1)` wrap around.
unfoldable pub fetch_add : ℕ → ℕ
fetch_add n = (n + 1) % (2 ^ 64)

unfoldable pub fetch_sub : ℕ → ℕ
fetch_sub n = (n + (2 ^ 64 - 1)) % (2 ^ 64)

-- The counter moves, and `Diagnostics::set_handlers_registered` copies what it then reads.
unfoldable pub count_handlers : (ℕ → ℕ) → Dispatch → Dispatch
count_handlers f s = record s {
  handlers_registered = f s.handlers_registered;
  metrics = record s.metrics { handlers_registered = f s.handlers_registered };
}

abbrev pub set_registry : HandlerRegistry → Dispatch → Dispatch
set_registry r s = record s { registry = r }

-- The columns of a handler; the time is cut to seconds.
unfoldable pub row_of : HandlerRef → HandlerRow
row_of h = record {
  bot_ids = h.bot_ids;
  event_types = h.event_types;
  capabilities = h.capabilities;
  reconnect_token = h.reconnect_token;
  registered_at = h.registered_at / second;
}

-- `Db::save_handler` replaces the row with the same id.
unfoldable pub save_row : HandlerRef → Tables → Tables
unfolding row_of
save_row h t = record t { handlers = insert h.id (row_of h) t.handlers }

-- `Dispatch::unregister_handler`
unfoldable pub unregister_handler : DbFaults → String → Exec (Unit {0})
unfolding unregister remove_handler count_handlers fetch_sub
unregister_handler db handler_id = do
  s ← gets (λ s. s)
  r ← lift (unregister handler_id s.registry)
  modify (set_registry r)
  modify (λ s. record s { limiter = remove_handler handler_id s.limiter })
  write db.delete_handler (λ t. record t { handlers = remove handler_id t.handlers })
  modify (count_handlers fetch_sub)

-- `HandlerRegisterResponse`, and `HandlerReconnectResponse` without the token; the notices that go
-- out before the response are kept with it.
pub record Registered : Type 0 where
  pub handler_id : String
  pub reconnect_token : Option String
  pub registered_events : List String
  pub own_pubkeys : Dict String String
  pub spool_dir : String
  pub notified : List (String × BotUnavailableReason)

-- `spool_dir().to_string_lossy()`, or the empty text without outbound attachments.
abbrev spool_dir_text : Option String → String
spool_dir_text none = ""
spool_dir_text (some dir) = dir

-- What `handle_register` and `handle_reconnect` do after the registry took the handler.
unfoldable pub announce :
    DbFaults → (Dispatch → Dispatch) → Option String → String → Option String → Exec Registered
unfolding save_row notify_bot_unavailable_on_registration collect_own_pubkeys as_wire_name
announce db counted spool_dir handler_id token = do
  s ← gets (λ s. s)
  handler ← lift (ok_or (get_handler handler_id s.registry) handler_not_registered)
  write db.save_handler (save_row handler)
  modify counted
  done (record {
    handler_id = handler_id;
    reconnect_token = token;
    registered_events = map as_wire_name handler.event_types;
    own_pubkeys = collect_own_pubkeys s.bots handler.bot_ids;
    spool_dir = spool_dir_text spool_dir;
    notified = notify_bot_unavailable_on_registration db s handler;
  })

-- A request's JSON object, read field by field: `serde_json::from_value` of a list of texts, where
-- an absent field is an empty list.
pub record RegisterParams : Type 0 where
  pub bot_ids : Result (List String)
  pub event_types : Result (List String)
  pub capabilities : Result (List String)

-- The parameters of a registration, the first that fails deciding.
abbrev pub parse_register : Option RegisterParams → Result (List String × List String × List String)
parse_register none = err (config "handler.register missing params")
parse_register (some p) = and_then p.bot_ids (λ bot_ids. and_then p.event_types (λ event_types.
    and_then p.capabilities (λ capabilities. ok (bot_ids, event_types, capabilities))))

-- After the registry took the handler in `handle_register`.
unfoldable pub enter :
    DbFaults → Option String → HandlerRegistration × HandlerRegistry → Exec Registered
unfolding announce count_handlers fetch_add
enter db spool_dir (registration, r) = do
  modify (set_registry r)
  announce db (count_handlers fetch_add) spool_dir registration.handler_id
      (some registration.reconnect_token)

-- `handle_register` once its parameters are read.
unfoldable pub register_parsed :
    DbFaults
    → Draw
    → Option String
    → ConnectionHandle
    → List String × List String × List String
    → Exec Registered
unfolding register enter bot_configs
register_parsed db d spool_dir connection (bot_ids, event_types, capabilities) = do
  s ← gets (λ s. s)
  taken ← lift (register d s.registry connection bot_ids event_types capabilities (bot_configs s))
  enter db spool_dir taken

-- `Dispatch::handle_register`; `connection` is the one given, or the fresh one that stands in.
unfoldable pub handle_register :
    DbFaults → Draw → Option String → Option RegisterParams → ConnectionHandle → Exec Registered
unfolding register_parsed
handle_register db d spool_dir params connection = do
  parsed ← lift (parse_register params)
  register_parsed db d spool_dir connection parsed

-- The parameters of a reconnection (`HandlerReconnectParams`) as `serde_json` reads them.
abbrev pub parse_reconnect : Option (Result (String × String)) → Result (String × String)
parse_reconnect none = err (config "handler.reconnect missing params")
parse_reconnect (some r) = r

-- After the registry took the handler back in `handle_reconnect`.
unfoldable pub enter_again : DbFaults → Option String → String × HandlerRegistry → Exec Registered
unfolding announce
enter_again db spool_dir (id, r) = do
  modify (set_registry r)
  announce db (λ s. s) spool_dir id none

-- `handle_reconnect` once its parameters are read.
unfoldable pub reconnect_parsed :
    DbFaults
    → TokenCodec
    → Channels
    → ℕ
    → Option String
    → ConnectionHandle
    → String × String
    → Exec Registered
unfolding reconnect enter_again
reconnect_parsed db codec net now spool_dir connection (handler_id, token) = do
  s ← gets (λ s. s)
  taken ← lift (reconnect codec net now s.registry handler_id token connection)
  enter_again db spool_dir taken

-- `Dispatch::handle_reconnect`
unfoldable pub handle_reconnect :
    DbFaults
    → TokenCodec
    → Channels
    → ℕ
    → Option String
    → Option (Result (String × String))
    → ConnectionHandle
    → Exec Registered
unfolding reconnect_parsed
handle_reconnect db codec net now spool_dir params connection = do
  parsed ← lift (parse_reconnect params)
  reconnect_parsed db codec net now spool_dir connection parsed

-- `Dispatch::handle_unregister`
unfoldable pub handle_unregister : DbFaults → Option String → Exec Bool
unfolding unregister_handler
handle_unregister db handler_id = do
  id ← lift (ok_or handler_id (config "handler.unregister requires a registered connection"))
  unregister_handler db id
  done true

-- The loop of a tick of `spawn_handler_reaper`; a failure is logged, and the next one is tried.
unfoldable pub reap : DbFaults → List String → Dispatch → Dispatch
unfolding unregister_handler
reap db [] s = s
reap db (id ∷ ids) s = reap db ids (unregister_handler db id s).0

-- A tick of `spawn_handler_reaper`
unfoldable pub reap_stale : DbFaults → Channels → ℕ → ℕ → Dispatch → Dispatch
unfolding reap is_stale
reap_stale db net now stale_timeout s =
    reap db (map (λ h. h.id) (keep (is_stale net now stale_timeout) (all_handlers s.registry))) s

-- The loop of `restore_handlers`
unfoldable pub restore_all : List HandlerRef → HandlerRegistry → HandlerRegistry
unfolding restore
restore_all [] r = r
restore_all (h ∷ hs) r = restore_all hs (restore h r)

-- A handler as a row gives it back: without a connection, and last seen when it registered.
unfoldable pub from_row : String × HandlerRow → HandlerRef
from_row (id, row) = record {
  id = id;
  connection = none;
  bot_ids = row.bot_ids;
  event_types = row.event_types;
  capabilities = row.capabilities;
  reconnect_token = row.reconnect_token;
  registered_at = row.registered_at * second;
  last_seen = row.registered_at * second;
  transport = "unknown";
}

-- `Db::load_handlers`
unfoldable pub load_handlers : DbFaults → Dispatch → Result (List HandlerRef)
unfolding from_row
load_handlers db s = elim db.load_handlers [
  | some e ↦ err e
  | none ↦ ok (map from_row s.tables.handlers)
]

-- `Dispatch::restore_handlers`
unfoldable pub restore_handlers : DbFaults → Exec (Unit {0})
unfolding load_handlers restore_all count_handlers
restore_handlers db = do
  s ← gets (λ s. s)
  handlers ← lift (load_handlers db s)
  modify (set_registry (restore_all handlers s.registry))
  modify (count_handlers (λ _. length handlers))

-- ===== src/Handlers/Registry.antt =====
-- `HandlerRegistry` of src/handlers.rs. The UUID and the entropy that `register` draws, the time,
-- and the decoding and comparison of tokens (crates `hex` and `subtle`) are arguments.
use pacto_bot_api.Prelude.{
  ℕ, String, Bool, true, ◌&&◌, Option, none, some, List, [], ◌∷◌, contains, string_eq, ◌==◌,
  if◌then◌else◌, format, keep, ◌≡◌, ◌↔◌,
}
use pacto_bot_api.Prelude.Dict.{Dict, get, insert, remove, values}
use pacto_bot_api.Config.{BotConfig}
use pacto_bot_api.Errors.{
  Result, ok, err, ok_or, ◌>>=◌, ◌>>◌, unknown_bot, config, token_generation,
  handler_not_registered, handler_already_connected, invalid_reconnect_token,
}
use pacto_bot_api.Events.{EventType}
use pacto_bot_api.Events.Names.{parse_event_type}
use pacto_bot_api.Handlers.Connection.{
  ConnectionHandle, HandlerRef, Channels, disconnect, is_connected, matches, allows,
}

pub record HandlerRegistry : Type 0 where
  pub handlers : Dict String HandlerRef

-- `HandlerRegistry::new`
abbrev pub empty : HandlerRegistry
empty = record { handlers = [] }

-- `bot_configs.iter().find(|b| b.id == *bot_id)`
unfoldable pub find_config : List BotConfig → String → Option BotConfig
find_config [] bot_id = none
find_config (b ∷ bs) bot_id = if b.id == bot_id then some b else find_config bs bot_id

-- The inner loop of `validate_request`.
unfoldable pub check_capabilities : BotConfig → String → List String → Result (Unit {0})
check_capabilities bot bot_id [] = ok tt
check_capabilities bot bot_id (cap ∷ caps) =
    let rest = check_capabilities bot bot_id caps in
    if contains bot.capabilities cap
    then rest
    else err (config (format ("capability " ∷ cap ∷ " not granted to bot " ∷ bot_id ∷ [])))

-- The outer loop of `validate_request`.
unfoldable pub check_bots : List BotConfig → List String → List String → Result (Unit {0})
unfolding find_config check_capabilities
check_bots configs [] caps = ok tt
check_bots configs (bot_id ∷ bot_ids) caps =
    let rest = check_bots configs bot_ids caps in
    do
      bot ← ok_or (find_config configs bot_id) (unknown_bot bot_id)
      check_capabilities bot bot_id caps
      rest

unfoldable pub parse_event_types : List String → Result (List EventType)
unfolding parse_event_type
parse_event_types [] = ok []
parse_event_types (t ∷ ts) =
    let rest = parse_event_types ts in do e ← parse_event_type t; es ← rest; ok (e ∷ es)

-- `HandlerRegistry::validate_request`
unfoldable pub validate_request :
    List String
    → List String
    → List String
    → List BotConfig
    → Result (List String × List EventType × List String)
unfolding check_bots parse_event_types
validate_request bot_ids event_types capabilities configs = do
  check_bots configs bot_ids capabilities
  parsed ← parse_event_types event_types
  ok (bot_ids, parsed, capabilities)

-- What `register` draws from outside: `Uuid::new_v4`, 32 random bytes in hexadecimal (or the
-- failure of `getrandom`), and `Utc::now`.
pub record Draw : Type 0 where
  pub uuid : String
  pub token : Option String
  pub now : ℕ

pub record HandlerRegistration : Type 0 where
  pub handler_id : String
  pub reconnect_token : String

-- `generate_reconnect_token`
abbrev pub generate_reconnect_token : Draw → Result String
generate_reconnect_token d = ok_or d.token (token_generation "getrandom")

-- The entry that `register` makes.
abbrev pub new_handler :
    Draw → ConnectionHandle → List String → List EventType → List String → String → HandlerRef
new_handler d connection bot_ids event_types capabilities token = record {
  id = d.uuid;
  connection = some connection;
  bot_ids = bot_ids;
  event_types = event_types;
  capabilities = capabilities;
  reconnect_token = token;
  registered_at = d.now;
  last_seen = d.now;
  transport = connection.transport;
}

-- `HandlerRegistry::register`
unfoldable pub register :
    Draw
    → HandlerRegistry
    → ConnectionHandle
    → List String
    → List String
    → List String
    → List BotConfig
    → Result (HandlerRegistration × HandlerRegistry)
unfolding validate_request
register d r connection bot_ids event_types capabilities configs = do
  (bot_ids', parsed, capabilities') ← validate_request bot_ids event_types capabilities configs
  token ← generate_reconnect_token d
  let handler = new_handler d connection bot_ids' parsed capabilities' token
  ok (
    record { handler_id = d.uuid; reconnect_token = token },
    record { handlers = insert d.uuid handler r.handlers },
  )

-- `hex::decode` (here without its error) and `ConstantTimeEq::ct_eq`, which compares contents.
pub record TokenCodec : Type 0 where
  pub decode : String → Option (List ℕ)
  pub ct_eq : List ℕ → List ℕ → Bool
  pub ct_eq_iff : (a b : List ℕ) → (ct_eq a b ≡ true) ↔ (a ≡ b)

-- The part of `reconnect` that changes the handler.
abbrev pub attach : ℕ → ConnectionHandle → HandlerRef → HandlerRef
attach now connection h = record h {
  connection = some connection;
  last_seen = now;
  transport = connection.transport;
}

-- The comparison of tokens in `reconnect`.
unfoldable pub check_token : TokenCodec → String → String → Result (Unit {0})
check_token codec given stored = do
  given_bytes ← ok_or (codec.decode given) invalid_reconnect_token
  stored_bytes ← ok_or (codec.decode stored) invalid_reconnect_token
  if codec.ct_eq given_bytes stored_bytes then ok tt else err invalid_reconnect_token

-- `HandlerRegistry::reconnect`
unfoldable pub reconnect :
    TokenCodec
    → Channels
    → ℕ
    → HandlerRegistry
    → String
    → String
    → ConnectionHandle
    → Result (String × HandlerRegistry)
unfolding check_token
reconnect codec net now r handler_id token connection = do
  existing ← ok_or (get handler_id r.handlers) handler_not_registered
  if is_connected net existing then err handler_already_connected else do
    check_token codec token existing.reconnect_token
    ok (
      handler_id,
      record { handlers = insert handler_id (attach now connection existing) r.handlers },
    )

-- `HandlerRegistry::restore`
unfoldable pub restore : HandlerRef → HandlerRegistry → HandlerRegistry
restore h r =
    let restored : HandlerRef = record h { last_seen = h.registered_at; transport = "unknown" } in
    elim (get h.id r.handlers) [
      | none ↦ record { handlers = insert h.id restored r.handlers }
      | some _ ↦ r
    ]

-- `HandlerRegistry::unregister`
unfoldable pub unregister : String → HandlerRegistry → Result HandlerRegistry
unregister handler_id r = do
  removed ← ok_or (get handler_id r.handlers) handler_not_registered
  ok (record { handlers = remove handler_id r.handlers })

-- `HandlerRegistry::get_handler`
abbrev pub get_handler : String → HandlerRegistry → Option HandlerRef
get_handler handler_id r = get handler_id r.handlers

-- `HandlerRegistry::find`
unfoldable pub find : Channels → HandlerRegistry → String → EventType → List HandlerRef
unfolding is_connected matches
find net r bot_id event_type =
    keep (λ h. is_connected net h && matches h bot_id event_type) (values r.handlers)

-- `HandlerRegistry::all_handlers`
abbrev pub all_handlers : HandlerRegistry → List HandlerRef
all_handlers r = values r.handlers

-- `HandlerRegistry::is_authorized`
unfoldable pub is_authorized : HandlerRegistry → String → String → String → Result Bool
unfolding allows
is_authorized r handler_id bot_id capability = do
  h ← ok_or (get handler_id r.handlers) handler_not_registered
  ok (allows h bot_id capability)

-- `Dispatch::disconnect_handler` of src/dispatch.rs, which goes by `get_handler_mut`.
unfoldable pub disconnect_handler : ℕ → String → HandlerRegistry → HandlerRegistry
disconnect_handler now k r = elim (get k r.handlers) [
  | none ↦ r
  | some h ↦ record { handlers = insert k (disconnect now h) r.handlers }
]

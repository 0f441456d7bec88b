-- ===== src/Handlers/Grants.antt =====
-- What `HandlerRegistry::register` of src/handlers.rs lets through.
use pacto_bot_api.Prelude.{
  String, true, ◌&&◌, some, List, [], ◌∷◌, ◌≡◌, refl, ap, ◌∙◌, ◌↔◌, arith, contains, All,
  All-contains, string_eq, eq_iff, if◌then◌else◌, ◌==◌,
}
use pacto_bot_api.Prelude.Dict.{get, get-insert, insert}
use pacto_bot_api.Config.{BotConfig}
use pacto_bot_api.Errors.{ok, ok_or, bind-eq-ok, ok_or-eq-ok, DaemonError}
use pacto_bot_api.Events.{EventType}
use pacto_bot_api.Handlers.{
  HandlerRegistry, HandlerRegistration, Draw, ConnectionHandle, find_config, check_capabilities,
  check_bots, validate_request, generate_reconnect_token, register, parse_event_types, new_handler,
  is_authorized,
}

-- A configured bot, found under its id, grants the capability.
abbrev pub Grants : List BotConfig → String → String → Type 0
Grants configs bot_id cap =
    (b : BotConfig) × (find_config configs bot_id ≡ some b) × (contains b.capabilities cap ≡ true)

-- A configured bot, found under its id, grants all of the capabilities.
abbrev pub GrantsAll : List BotConfig → List String → String → Type 0
GrantsAll configs caps bot_id =
    (b : BotConfig) × (find_config configs bot_id ≡ some b)
    × All (λ cap. contains b.capabilities cap ≡ true) caps

check_capabilities_sound :
    (b : BotConfig) (bot_id : String) (caps : List String)
    → check_capabilities b bot_id caps ≡ ok tt
    → All (λ cap. contains b.capabilities cap ≡ true) caps
unfolding check_capabilities
check_capabilities_sound b bot_id [] h = tt
check_capabilities_sound b bot_id (cap ∷ caps) h =
    ground (arith, check_capabilities_sound b bot_id caps)

check_capabilities_complete :
    (b : BotConfig) (bot_id : String) (caps : List String)
    → All (λ cap. contains b.capabilities cap ≡ true) caps
    → check_capabilities b bot_id caps ≡ ok tt
unfolding check_capabilities
check_capabilities_complete b bot_id [] h = refl
check_capabilities_complete b bot_id (cap ∷ caps) h =
    ground (arith, check_capabilities_complete b bot_id caps h.1)

check_bots_sound :
    (configs : List BotConfig) (bot_ids caps : List String)
    → check_bots configs bot_ids caps ≡ ok tt
    → All (GrantsAll configs caps) bot_ids
unfolding check_bots
check_bots_sound configs [] caps h = tt
check_bots_sound configs (bot_id ∷ bot_ids) caps h =
    let (b, found, h₁) =
      bind-eq-ok (ok_or (find_config configs bot_id) (DaemonError.unknown_bot bot_id)) _ h in
    let (_, granted, h₂) = bind-eq-ok (check_capabilities b bot_id caps) _ h₁ in
    (
      (b, ok_or-eq-ok _ _ found, check_capabilities_sound b bot_id caps (ground arith)),
      check_bots_sound configs bot_ids caps h₂,
    )

check_bots_complete :
    (configs : List BotConfig) (bot_ids caps : List String)
    → All (GrantsAll configs caps) bot_ids
    → check_bots configs bot_ids caps ≡ ok tt
unfolding check_bots
check_bots_complete configs [] caps h = refl
check_bots_complete configs (bot_id ∷ bot_ids) caps ((b, found, granted), rest) =
    rw (found, check_capabilities_complete b bot_id caps granted)
      (check_bots_complete configs bot_ids caps rest)

-- The loop over the bots passes exactly when each is configured and grants all capabilities.
pub check_bots_iff :
    (configs : List BotConfig) (bot_ids caps : List String)
    → (check_bots configs bot_ids caps ≡ ok tt) ↔ All (GrantsAll configs caps) bot_ids
check_bots_iff configs bot_ids caps =
    (check_bots_sound configs bot_ids caps, check_bots_complete configs bot_ids caps)

-- A valid request passes as it is, its event types parsed.
pub validate_request-eq-ok :
    (bot_ids event_types capabilities : List String) (configs : List BotConfig)
    (v : List String × List EventType × List String)
    → validate_request bot_ids event_types capabilities configs ≡ ok v
    → (check_bots configs bot_ids capabilities ≡ ok tt)
      × (parse_event_types event_types ≡ ok v.1)
      × (v ≡ (bot_ids, v.1, capabilities))
unfolding validate_request
validate_request-eq-ok bot_ids event_types capabilities configs v h =
    let (_, checked, h₁) = bind-eq-ok (check_bots configs bot_ids capabilities) _ h in
    let (es, parsed, h₂) = bind-eq-ok (parse_event_types event_types) _ h₁ in
    (ground arith, ground arith, ground arith)

-- What a successful `register` has checked and entered.
pub register-eq-ok :
    (d : Draw) (r r' : HandlerRegistry) (connection : ConnectionHandle)
    (bot_ids event_types capabilities : List String) (configs : List BotConfig)
    (reg : HandlerRegistration)
    → register d r connection bot_ids event_types capabilities configs ≡ ok (reg, r')
    → (parsed : List EventType) × (check_bots configs bot_ids capabilities ≡ ok tt)
      × (parse_event_types event_types ≡ ok parsed)
      × (d.token ≡ some reg.reconnect_token)
      × (reg.handler_id ≡ d.uuid)
      × (r'.handlers
          ≡ insert d.uuid
              (new_handler d connection bot_ids parsed capabilities reg.reconnect_token)
              r.handlers)
unfolding register
register-eq-ok d r r' connection bot_ids event_types capabilities configs reg h =
    let (v, valid, h₁) =
      bind-eq-ok (validate_request bot_ids event_types capabilities configs) _ h in
    let (token, drawn, h₂) = bind-eq-ok (generate_reconnect_token d) _ h₁ in
    let (checked, parsed, same) =
      validate_request-eq-ok bot_ids event_types capabilities configs v valid in
    (
      v.1,
      checked,
      parsed,
      ok_or-eq-ok _ _ drawn ∙ ap some (ground arith),
      ground arith,
      ground arith,
    )

module _ (d : Draw) (r r' : HandlerRegistry) (connection : ConnectionHandle)
    (bot_ids event_types capabilities : List String) (configs : List BotConfig)
    (reg : HandlerRegistration)
    (registered : register d r connection bot_ids event_types capabilities configs
      ≡ ok (reg, r')) where
  -- After a registration the new handler may do what it asked for, for the bots and capabilities
  -- that it named, and nothing else; every other handler may do what it could before.
  pub is_authorized-register :
      (k b c : String)
      → is_authorized r' k b c ≡ (
          if reg.handler_id == k
          then ok (contains bot_ids b && contains capabilities c)
          else is_authorized r k b c)
  unfolding is_authorized
  is_authorized-register k b c =
      let (parsed, _, _, _, named, entered) =
        register-eq-ok d r r' connection bot_ids event_types capabilities configs reg registered in
      let entry = new_handler d connection bot_ids parsed capabilities reg.reconnect_token in
      ground (arith, get-insert d.uuid k entry r.handlers, ap (get k) entered)

  -- A registration gives no capability that the configuration does not grant for that bot.
  pub register-Grants :
      (b c : String) → is_authorized r' reg.handler_id b c ≡ ok true → Grants configs b c
  register-Grants b c h =
      let (_, checked, _, _, _, _) =
        register-eq-ok d r r' connection bot_ids event_types capabilities configs reg registered in
      let asked : (contains bot_ids b ≡ true) × (contains capabilities c ≡ true) =
        ground (
          arith,
          is_authorized-register reg.handler_id b c,
          eq_iff reg.handler_id reg.handler_id,
        ) in
      let (conf, found, granted) =
        All-contains (GrantsAll configs capabilities) bot_ids b
          (check_bots_sound configs bot_ids capabilities checked) asked.0 in
      (
        conf,
        found,
        All-contains (λ cap. contains conf.capabilities cap ≡ true) capabilities c granted asked.1,
      )

-- ===== src/Handlers/Tests.antt =====
-- Tests of src/handlers.rs, and the theorems about it at concrete registries.
use pacto_bot_api.Prelude.{
  String, true, false, none, some, List, [], ◌∷◌, ◌≡◌, refl, ◌↔◌, contains, string_eq, nat_eq,
  nat_beq, list_beq, list_beq_iff, ◌==◌, if◌then◌else◌, All,
}
use pacto_bot_api.Prelude.Dict.{get, insert}
use pacto_bot_api.Config.{BotConfig, nsec}
use pacto_bot_api.Errors.{ok, err, handler_already_connected, unknown_bot}
use pacto_bot_api.Events.{dm_received}
use pacto_bot_api.Handlers.{
  HandlerRegistry, HandlerRegistration, HandlerRef, ConnectionHandle, Channels, TokenCodec, Draw,
  attach, empty, check_bots, register, reconnect, disconnect, disconnect_handler, is_connected,
  is_authorized, new_handler,
}
use pacto_bot_api.Handlers.Grants.{
  Grants, GrantsAll, check_bots_iff, is_authorized-register, register-Grants,
}
use pacto_bot_api.Handlers.Reconnect.{
  SameToken, reconnect_sound, reconnect_complete, no_live_takeover, is_authorized-reconnect,
}
use pacto_bot_api.Handlers.Invariant.{
  Call, registers, reconnects, disconnects, run, run_authorized_is_granted,
}

abbrev pub echo_config : BotConfig
echo_config = record {
  id = "echo";
  npub = "npub1echo";
  signing = nsec "nsec1";
  relays = [];
  capabilities = "ReadMessages" ∷ "SendMessages" ∷ [];
  display_name = some "Echo";
  about = none;
  picture = none;
  mls_dedup_window_secs = none;
  mls_db_path = none;
  mls_key_package_freshness_secs = none;
}

abbrev pub configs : List BotConfig
configs = echo_config ∷ []

abbrev pub drawn : Draw
drawn = record { uuid = "h1"; token = some "ab"; now = 5 }

abbrev pub wire : ConnectionHandle
wire = record { sender = 1; transport = "unix" }

abbrev wire_again : ConnectionHandle
wire_again = record { sender = 2; transport = "http" }

-- Channel 1 is closed, every other is open.
abbrev first_closed : Channels
first_closed = record { is_closed = λ c. nat_beq c 1; has_room = λ _. true }

-- The same channels with channel 1 open.
abbrev pub all_open : Channels
all_open = record { is_closed = λ _. false; has_room = λ _. true }

-- A decoder that knows one text in two spellings.
abbrev pub codec : TokenCodec
codec = record {
  decode = λ s. if s == "ab" then some (171 ∷ []) else if s == "AB" then some (171 ∷ []) else none;
  ct_eq = list_beq;
  ct_eq_iff = list_beq_iff;
}

abbrev pub echo_handler : HandlerRef
echo_handler = new_handler drawn wire ("echo" ∷ []) (dm_received ∷ []) ("SendMessages" ∷ []) "ab"

abbrev pub one_handler : HandlerRegistry
one_handler = record { handlers = ("h1", echo_handler) ∷ [] }

abbrev pub registration : HandlerRegistration
registration = record { handler_id = "h1"; reconnect_token = "ab" }

pub registers_echo :
    register drawn empty wire ("echo" ∷ []) ("dm_received" ∷ []) ("SendMessages" ∷ []) configs
    ≡ ok (registration, one_handler)
unfolding register insert contains
registers_echo = refl

rejects_unknown_bot :
    register drawn empty wire ("joke" ∷ []) [] [] configs ≡ err (unknown_bot "joke")
unfolding register
rejects_unknown_bot = refl

check_bots_at_echo :
    (check_bots configs ("echo" ∷ []) ("SendMessages" ∷ []) ≡ ok tt)
    ↔ All (GrantsAll configs ("SendMessages" ∷ [])) ("echo" ∷ [])
check_bots_at_echo = check_bots_iff configs ("echo" ∷ []) ("SendMessages" ∷ [])

is_authorized-register_test : is_authorized one_handler "h1" "echo" "SendMessages" ≡ ok true
unfolding contains
is_authorized-register_test =
    is_authorized-register drawn empty one_handler wire ("echo" ∷ []) ("dm_received" ∷ [])
      ("SendMessages" ∷ []) configs registration registers_echo "h1" "echo" "SendMessages"

pub sends_for_echo : is_authorized one_handler "h1" "echo" "SendMessages" ≡ ok true
unfolding is_authorized get contains
sends_for_echo = refl

register-Grants_test : Grants configs "echo" "SendMessages"
register-Grants_test =
    register-Grants drawn empty one_handler wire ("echo" ∷ []) ("dm_received" ∷ [])
      ("SendMessages" ∷ []) configs registration registers_echo "echo" "SendMessages" sends_for_echo

abbrev reattached : HandlerRegistry
reattached = record { handlers = ("h1", attach 9 wire_again echo_handler) ∷ [] }

found_echo : get "h1" one_handler.handlers ≡ some echo_handler
unfolding get
found_echo = refl

dead_echo : is_connected first_closed echo_handler ≡ false
unfolding is_connected
dead_echo = refl

live_echo : is_connected all_open echo_handler ≡ true
unfolding is_connected
live_echo = refl

reconnect_complete_test :
    reconnect codec first_closed 9 one_handler "h1" "AB" wire_again ≡ ok ("h1", reattached)
unfolding insert
reconnect_complete_test =
    reconnect_complete codec first_closed 9 one_handler "h1" "AB" wire_again echo_handler found_echo
      dead_echo (171 ∷ [], refl, refl)

reconnects_echo :
    reconnect codec first_closed 9 one_handler "h1" "AB" wire_again ≡ ok ("h1", reattached)
unfolding reconnect get insert is_connected
reconnects_echo = refl

reconnect_sound_example :
    (h : HandlerRef) × (get "h1" one_handler.handlers ≡ some h)
    × (is_connected first_closed h ≡ false)
    × SameToken codec "AB" h.reconnect_token
    × (◌≡◌ {A = String} "h1" "h1")
    × (reattached.handlers ≡ insert "h1" (attach 9 wire_again h) one_handler.handlers)
reconnect_sound_example =
    reconnect_sound codec first_closed 9 one_handler "h1" "AB" wire_again "h1" reattached
      reconnects_echo

no_live_takeover_test :
    reconnect codec all_open 9 one_handler "h1" "ab" wire_again ≡ err handler_already_connected
no_live_takeover_test =
    no_live_takeover codec all_open 9 one_handler "h1" "ab" wire_again echo_handler found_echo
      live_echo

is_authorized-reconnect_test :
    is_authorized reattached "h1" "echo" "Admin" ≡ is_authorized one_handler "h1" "echo" "Admin"
is_authorized-reconnect_test =
    is_authorized-reconnect codec first_closed 9 one_handler "h1" "AB" wire_again "h1" reattached
      "h1" "echo" "Admin" reconnects_echo

abbrev calls : List Call
calls =
    registers drawn wire ("echo" ∷ []) ("dm_received" ∷ []) ("SendMessages" ∷ [])
    ∷ registers (record drawn { uuid = "h2" }) wire ("echo" ∷ []) [] ("Admin" ∷ [])
    ∷ disconnects 7 "h1"
    ∷ reconnects first_closed 9 "h1" "ab" wire_again
    ∷ []

authorized_after_calls :
    is_authorized (run codec configs empty calls) "h1" "echo" "SendMessages" ≡ ok true
unfolding run is_authorized register reconnect disconnect_handler disconnect get insert contains
    is_connected
authorized_after_calls = refl

run_authorized_is_granted_example : Grants configs "echo" "SendMessages"
run_authorized_is_granted_example =
    run_authorized_is_granted codec configs calls "h1" "echo" "SendMessages"
      (tt, (tt, (tt, (tt, tt)))) authorized_after_calls

-- ===== src/Dispatch/Tests.antt =====
-- Tests of the dispatcher of src/dispatch.rs, and the theorems about it at concrete states.
mod Groups
mod Restarts
use pacto_bot_api.Prelude.{
  ℕ, ◌^◌, ◌-◌, ◌≤◌, String, true, false, none, some, List, [], ◌∷◌, ◌≡◌, refl, ◌⊎◌, arith,
  string_eq, contains, ◌==◌, if◌then◌else◌, All,
}
use pacto_bot_api.Prelude.Dict.{Dict, get, insert, remove}
use pacto_bot_api.Errors.{DaemonError, ok, err, sqlite}
use pacto_bot_api.Events.{AgentEvent, dm_received}
use pacto_bot_api.Handlers.{HandlerRegistry, empty}
use pacto_bot_api.Handlers.Tests.{
  echo_config, drawn, wire, codec, echo_handler, one_handler, registration, registers_echo,
}
use pacto_bot_api.Limits.{default_limiter, new_cache, take_token, check_bucket, maybe_sweep}
use pacto_bot_api.Dispatch.{
  Dispatch, PendingDispatch, HandlerAction, ack, reply, defer, DbFaults, DirectMessage, Params,
  RegisterParams, Network, Clocks, Waiting, handle_send_dm, unregister_handler, register_parsed,
  collect, finish_dispatch, handle_admin_unregister_handler, bot_configs,
}
use pacto_bot_api.Dispatch.Counting.{IsCounted}
use pacto_bot_api.Dispatch.Lives.{
  Call, registers, unregisters, run, run-IsCounted, unsaved_registration_wraps,
}
use pacto_bot_api.Dispatch.Answering.{
  Signal, opens, responds, signals, answers_of, heard_at_most_once,
}
use pacto_bot_api.Dispatch.Gates.{MaySend, handle_send_dm_gated}
use pacto_bot_api.Dispatch.Cursors.{gathered, finish_dispatch_cursor}
use pacto_bot_api.Dispatch.Collecting.{take, has_defer, before_defer, collect_lem}
use pacto_bot_api.Dispatch.Administration.{MayRemove, removal_is_allowed}

abbrev no_faults : DbFaults
no_faults = record {
  save_handler = none;
  delete_handler = none;
  load_handlers = none;
  save_cursor = none;
  save_trace = none;
  load_groups = none;
  clear_state_lost = none;
}

-- A daemon with the bot `echo`, the registry and the pending entries given.
abbrev daemon : HandlerRegistry → ℕ → Dict String PendingDispatch → Dispatch
daemon registry count pending = record {
  bots = ("echo", record { config = echo_config; mls_unavailable_reason = none }) ∷ [];
  registry = registry;
  tables = record { handlers = []; cursors = []; groups = []; traces = [] };
  metrics = record {
    events_received_total = 0;
    handler_responses_total = 0;
    rate_limited_total = 0;
    group_messages_rate_limited_total = 0;
    handlers_registered = 0;
  };
  limiter = default_limiter 0;
  dedup = new_cache 1000;
  pending = pending;
  handlers_registered = count;
  last_cursor = [];
  sent = [];
}

abbrev echo_params : RegisterParams
echo_params = record {
  bot_ids = ok ("echo" ∷ []);
  event_types = ok ("dm_received" ∷ []);
  capabilities = ok ("SendMessages" ∷ []);
}

abbrev life : List Call
life = registers drawn (some echo_params) wire ∷ unregisters (some "h1") ∷ []

run-IsCounted_example : IsCounted (run no_faults codec none (daemon empty 0 []) life)
unfolding get
run-IsCounted_example =
    run-IsCounted no_faults codec none (daemon empty 0 []) life refl refl (refl, (tt, tt))
      (record { distinct = tt; counted = refl })

abbrev broken : DaemonError
broken = sqlite "disk full"

abbrev no_saves : DbFaults
no_saves = record no_faults { save_handler = some broken }

unsaved_registration_wraps_example :
    (s1 : Dispatch) × (register_parsed no_saves drawn none wire
        ("echo" ∷ [], "dm_received" ∷ [], "SendMessages" ∷ [])
        (daemon empty 0 [])
      ≡ (s1, err broken))
    × ((unregister_handler no_faults "h1" s1).0.handlers_registered ≡ 2 ^ 64 - 1)
unfolding bot_configs
unsaved_registration_wraps_example =
    unsaved_registration_wraps no_saves no_faults drawn none wire (daemon empty 0 []) ("echo" ∷ [])
      ("dm_received" ∷ []) ("SendMessages" ∷ []) broken registration one_handler refl refl refl
      registers_echo

abbrev ping : AgentEvent
ping = record {
  bot_id = "echo";
  event_id = "e1";
  event_type = dm_received;
  chat_id = none;
  content = "ping";
  mentions = [];
  is_mentioned = false;
  mentioned_bot_ids = [];
  pacto_virtual_bucket = none;
  rumor_id = "r1";
  author = "npub1author";
  timestamp = 1700000000;
  reaction = none;
  attachment = none;
  bot_unavailable = none;
}

-- `{"event_id": "e1", "action": "reply", "content": "pong"}`
abbrev pong : Params
pong = λ field.
    if field == "event_id"
    then some "e1"
    else if field == "action"
    then some "reply"
    else if field == "content"
    then some "pong"
    else none

abbrev answered : PendingDispatch
answered = record {
  queue = ("h1", reply "pong") ∷ [];
  handler_ids = "h1" ∷ [];
  response_counts = ("h1", 1) ∷ [];
  max_responses = 1;
}

-- The second answer of `h1` and the one of a stranger are refused.
abbrev traffic : List Signal
traffic =
    opens "npub1echo" ping (echo_handler ∷ [])
    ∷ responds (some "h1") (some pong)
    ∷ responds (some "h1") (some pong)
    ∷ responds (some "h2") (some pong)
    ∷ []

waits_for_one : get "e1" (signals (daemon one_handler 1 []) traffic).pending ≡ some answered
unfolding signals get insert contains
waits_for_one = refl

heard_at_most_once_example :
    (answers_of "h1" answered.queue ≤ 1)
    × All (λ r. contains answered.handler_ids r.0 ≡ true) answered.queue
heard_at_most_once_example =
    heard_at_most_once (daemon one_handler 1 []) traffic "e1" answered "h1" refl waits_for_one

abbrev relays : Network
relays _ = ok "published"

abbrev greeting : DirectMessage
greeting = record {
  from_bot = "echo";
  recipient = "npub1author";
  content = "hello";
  reply_to = none;
}

handle_send_dm_gated_example :
    ((handle_send_dm relays 0 0 greeting (some "h1") (daemon one_handler 1 [])).0.sent ≡ [])
    ⊎ (MaySend 0 0 "echo" (some "h1") (daemon one_handler 1 [])
        × ((handle_send_dm relays 0 0 greeting (some "h1") (daemon one_handler 1 [])).0.sent
            ≡ greeting ∷ []))
handle_send_dm_gated_example =
    handle_send_dm_gated relays 0 0 greeting (some "h1") (daemon one_handler 1 [])

sends_greeting :
    (handle_send_dm relays 0 0 greeting (some "h1") (daemon one_handler 1 [])).0.sent
    ≡ greeting ∷ []
unfolding handle_send_dm get contains take_token check_bucket maybe_sweep default_limiter
sends_greeting = refl

abbrev waiting : Waiting
waiting = record { event = ping; expected = 1; npub = "npub1echo" }

abbrev still_clocks : Clocks
still_clocks = record { cached = 0; clock = 0; now = 0 }

abbrev answered_daemon : Dispatch
answered_daemon = daemon one_handler 1 (("e1", answered) ∷ [])

answers_without_defer : (gathered waiting answered_daemon).any_defer ≡ false
unfolding collect get
answers_without_defer = refl

finish_dispatch_cursor_example :
    (s' : Dispatch) × (finish_dispatch relays no_faults (λ _. still_clocks) waiting answered_daemon
      ≡ (s', ok tt))
    × (s'.pending ≡ remove "e1" answered_daemon.pending)
    × (s'.last_cursor ≡ (
        if (gathered waiting answered_daemon).any_defer
        then []
        else insert "echo" ("npub1echo", 1700000000) []))
    × (s'.tables.cursors ≡ (
        if (gathered waiting answered_daemon).any_defer
        then []
        else insert "echo" ("npub1echo", 1700000000) []))
finish_dispatch_cursor_example =
    finish_dispatch_cursor relays no_faults (λ _. still_clocks) waiting answered_daemon
      (omega arith) refl

abbrev two_answers : List (String × HandlerAction)
two_answers = ("h1", ack) ∷ ("h2", defer) ∷ []

collect_lem_test :
    ((collect 2 two_answers).responses ≡ before_defer (take 2 two_answers))
    × ((collect 2 two_answers).any_defer ≡ has_defer (take 2 two_answers))
collect_lem_test = collect_lem 2 two_answers

-- `{"handler_id": "h1"}`
abbrev remove_h1 : Params
remove_h1 = λ field. if field == "handler_id" then some "h1" else none

abbrev without_h1 : Dispatch
without_h1 = (unregister_handler no_faults "h1" (daemon one_handler 1 [])).0

removes_itself :
    handle_admin_unregister_handler no_faults (some "h1") (some remove_h1) (daemon one_handler 1 [])
    ≡ (without_h1, ok true)
unfolding handle_admin_unregister_handler unregister_handler get remove
removes_itself = refl

removal_is_allowed_test : MayRemove (some "h1") "h1" (daemon one_handler 1 [])
removal_is_allowed_test =
    removal_is_allowed no_faults (some "h1") remove_h1 "h1" (daemon one_handler 1 []) without_h1
      true refl removes_itself

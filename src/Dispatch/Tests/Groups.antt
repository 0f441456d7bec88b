-- ===== src/Dispatch/Tests/Groups.antt =====
-- Tests of the group messages of src/dispatch.rs, and the theorems about them at a concrete state.
use pacto_bot_api.Prelude.{
  ◌*◌, true, false, none, some, Option, List, [], ◌∷◌, ◌≡◌, refl, arith, string_eq, contains, All,
  keep,
}
use pacto_bot_api.Prelude.Dict.{get, insert}
use pacto_bot_api.Config.{dedup_window}
use pacto_bot_api.Errors.{Result, ok}
use pacto_bot_api.Events.{AgentEvent, mls_group_message_received}
use pacto_bot_api.Handlers.{HandlerRef, allows}
use pacto_bot_api.Handlers.Tests.{echo_config, echo_handler, one_handler}
use pacto_bot_api.Limits.{
  default_limiter, new_cache, is_duplicate, check_group, second, take_token, check_bucket,
  maybe_sweep,
}
use pacto_bot_api.Dispatch.{Dispatch, Clocks, process_mls_group_message}
use pacto_bot_api.Dispatch.Groups.{group_message_goes_on, group_message_comes_again}
use pacto_bot_api.Dispatch.Tests.{daemon, ping, still_clocks}

-- A member of a squad says something.
abbrev said : AgentEvent
said = record ping { event_type = mls_group_message_received; chat_id = some "squad" }

abbrev listener : HandlerRef
listener = record echo_handler { capabilities = "ReceiveGroupMessages" ∷ [] }

abbrev deaf : HandlerRef
deaf = echo_handler

abbrev told_once : Dispatch × Result (Option (AgentEvent × List HandlerRef))
told_once =
    process_mls_group_message still_clocks echo_config [] said (listener ∷ deaf ∷ [])
      (daemon one_handler 1 [])

-- Only the handler with the capability is told.
tells_listener : told_once ≡ (told_once.0, ok (some (said, listener ∷ [])))
unfolding process_mls_group_message get contains default_limiter check_group keep take_token
    check_bucket maybe_sweep
tells_listener = refl

group_message_goes_on_example :
    ((is_duplicate "echo:e1" 0 (900 * second) (new_cache 1000)).1 ≡ false)
    × ((check_group 0 "echo" "squad" 0 (default_limiter 0)).1 ≡ true)
    × All (λ h. allows h "echo" "ReceiveGroupMessages" ≡ true) (listener ∷ [])
    × (get "echo:e1" told_once.0.dedup.seen ≡ some 0)
unfolding dedup_window
group_message_goes_on_example =
    group_message_goes_on still_clocks echo_config [] said said (listener ∷ deaf ∷ [])
      (listener ∷ []) (daemon one_handler 1 []) told_once.0 tells_listener

-- A minute later.
abbrev later_clocks : Clocks
later_clocks = record { cached = 60 * second; clock = 60 * second; now = 60 * second }

group_message_comes_again_test :
    ((process_mls_group_message later_clocks echo_config [] said (listener ∷ []) told_once.0).1
      ≡ ok none)
    × ((process_mls_group_message later_clocks echo_config [] said
          (listener ∷ [])
          told_once.0).0.limiter
        ≡ told_once.0.limiter)
unfolding process_mls_group_message get dedup_window take_token check_bucket maybe_sweep
    default_limiter insert
group_message_comes_again_test =
    group_message_comes_again still_clocks echo_config [] said said (listener ∷ deaf ∷ [])
      (listener ∷ []) (daemon one_handler 1 []) told_once.0 tells_listener later_clocks
      (listener ∷ []) told_once.0 refl (refl, tt) (omega arith) (omega arith)

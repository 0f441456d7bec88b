-- ===== src/Dispatch/Notices.antt =====
-- What a handler is told when it registers or reconnects in src/dispatch.rs: which of its bots are
-- unavailable, and the public keys of its bots.
use pacto_bot_api.Prelude.{
  String, Bool, true, false, Option, none, some, List, [], ◌∷◌, contains, string_eq,
}
use pacto_bot_api.Prelude.Dict.{Dict, get, insert}
use pacto_bot_api.Errors.{Result, ok, err}
use pacto_bot_api.Events.{
  EventType, event_type_eq, BotUnavailableReason, state_lost, engine_unavailable,
}
use pacto_bot_api.Handlers.{HandlerRef}
use pacto_bot_api.Dispatch.State.{Dispatch, Bot, Group, DbFaults}

-- Is some group marked as lost? `groups.iter().any(|g| g.state_lost_at.is_some())`
unfoldable any_lost : List Group → Bool
any_lost [] = false
any_lost (g ∷ gs) = let rest = any_lost gs in elim g.state_lost_at [ none ↦ rest | some _ ↦ true ]

-- `Db::load_all_mls_groups`
unfoldable pub load_all_mls_groups : DbFaults → Dispatch → String → Result (List Group)
load_all_mls_groups db s bot_id = elim db.load_groups [
  | some e ↦ err e
  | none ↦ elim (get bot_id s.tables.groups) [ none ↦ ok [] | some gs ↦ ok gs ]
]

-- `get_bot_by_id(bot_id).is_some_and(|bot| bot.mls_engine_unavailable())`
abbrev pub engine_is_unavailable : Option Bot → Bool
engine_is_unavailable none = false
engine_is_unavailable (some b) = elim b.mls_unavailable_reason [ none ↦ false | some _ ↦ true ]

abbrev lost_reason : Result (List Group) → Option BotUnavailableReason
lost_reason (err _) = none
lost_reason (ok groups) = elim (any_lost groups) [ true ↦ some state_lost | false ↦ none ]

-- The reason that `notify_bot_unavailable_on_registration` finds for a bot.
unfoldable pub unavailable_reason : DbFaults → Dispatch → String → Option BotUnavailableReason
unfolding any_lost load_all_mls_groups
unavailable_reason db s bot_id = elim (engine_is_unavailable (get bot_id s.bots)) [
  | true ↦ some engine_unavailable
  | false ↦ lost_reason (load_all_mls_groups db s bot_id)
]

-- The loop of `notify_bot_unavailable_on_registration`.
unfoldable pub notices : DbFaults → Dispatch → List String → List (String × BotUnavailableReason)
unfolding unavailable_reason
notices db s [] = []
notices db s (bot_id ∷ bot_ids) =
    let rest = notices db s bot_ids in
    elim (unavailable_reason db s bot_id) [ none ↦ rest | some r ↦ (bot_id, r) ∷ rest ]

-- `notify_bot_unavailable_on_registration`: what it sends to the handler.
unfoldable pub notify_bot_unavailable_on_registration :
    DbFaults → Dispatch → HandlerRef → List (String × BotUnavailableReason)
unfolding notices
notify_bot_unavailable_on_registration db s h =
    elim (contains h.event_types EventType.bot_unavailable) [
      | false ↦ []
      | true ↦ notices db s h.bot_ids
    ]

-- `collect_own_pubkeys`
unfoldable pub collect_own_pubkeys : Dict String Bot → List String → Dict String String
collect_own_pubkeys bots [] = []
collect_own_pubkeys bots (bot_id ∷ bot_ids) =
    let rest = collect_own_pubkeys bots bot_ids in
    elim (get bot_id bots) [ none ↦ rest | some b ↦ insert bot_id b.config.npub rest ]

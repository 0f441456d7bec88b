-- ===== src/Dispatch/Delivery.antt =====
-- `dispatch_event` of src/dispatch.rs, in its two steps: up to where it waits for responses, and
-- from there. Between them other methods run. The lock on the event's id keeps two dispatches of
-- one id apart, so a first step finds none pending under its id.
use pacto_bot_api.Prelude.{
  ℕ, ◌+◌, ◌*◌, String, Option, none, some, List, [], ◌∷◌, ◌++◌, keep, contains, string_eq, ◌==◌,
  if◌then◌else◌, format, Bool, true, false,
}
use pacto_bot_api.Prelude.Dict.{Dict, get, insert}
use pacto_bot_api.Config.{BotConfig, dedup_window}
use pacto_bot_api.Errors.{Result, ok}
use pacto_bot_api.Events.{AgentEvent, event_type_eq, mls_welcome_received}
use pacto_bot_api.Handlers.{HandlerRef, allows}
use pacto_bot_api.Limits.{RateLimiter, DedupCache, is_duplicate, check_group, second}
use pacto_bot_api.Dispatch.State.{
  Dispatch, Dispatch, Bot, Group, Tables, DbFaults, Exec, ◌>>=◌, done, lift, gets, write,
}
use pacto_bot_api.Dispatch.Notices.{load_all_mls_groups}

-- `groups.iter().find(|g| g.wire_id == wire_id && g.state_lost_at.is_some())`
unfoldable pub find_lost : String → List Group → Option Group
find_lost wire_id [] = none
find_lost wire_id (g ∷ gs) =
    let rest = find_lost wire_id gs in
    elim g.state_lost_at [ none ↦ rest | some _ ↦ if g.wire_id == wire_id then some g else rest ]

-- The row of `Db::clear_mls_group_state_lost`.
unfoldable pub clear_lost : String → List Group → List Group
clear_lost group_name [] = []
clear_lost group_name (g ∷ gs) =
    let rest = clear_lost group_name gs in
    if g.group_name == group_name then record g { state_lost_at = none } ∷ rest else g ∷ rest

abbrev groups_of : String → Tables → List Group
groups_of bot_id t = elim (get bot_id t.groups) [ none ↦ [] | some gs ↦ gs ]

abbrev clear_mls_group_state_lost : String → String → Tables → Tables
clear_mls_group_state_lost bot_id group_name t = record t {
  groups = insert bot_id (clear_lost group_name (groups_of bot_id t)) t.groups;
}

abbrev clear_found : DbFaults → String → Option Group → Exec (Unit {0})
clear_found db bot_id none = done tt
clear_found db bot_id (some g) =
    write db.clear_state_lost (clear_mls_group_state_lost bot_id g.group_name)

abbrev welcome : DbFaults → AgentEvent → Option String → Exec (Unit {0})
welcome db event none = done tt
welcome db event (some wire_id) = do
  s ← gets (λ s. s)
  groups ← lift (load_all_mls_groups db s event.bot_id)
  clear_found db event.bot_id (find_lost wire_id groups)

-- The step of `dispatch_event` for an `MlsWelcomeReceived`.
unfoldable pub accept_welcome : DbFaults → AgentEvent → Exec (Unit {0})
unfolding find_lost clear_lost load_all_mls_groups
accept_welcome db event =
    if event.event_type == mls_welcome_received then welcome db event event.chat_id else done tt

-- `npub_to_bot_id_map`
unfoldable pub npub_to_bot_id_map : List Bot → Dict String String
npub_to_bot_id_map [] = []
npub_to_bot_id_map (b ∷ bs) =
    let rest = npub_to_bot_id_map bs in insert b.config.npub b.config.id rest

-- The loop that gathers `mentioned_bot_ids`; the second argument is `seen`, in the order of entry.
unfoldable pub mentioned : Dict String String → List String → List String → List String
mentioned names seen [] = seen
mentioned names seen (npub ∷ npubs) =
    mentioned names
      (elim (get npub names) [
        | none ↦ seen
        | some bot_id ↦ if contains seen bot_id then seen else seen ++ (bot_id ∷ [])
      ])
      npubs

-- What `Instant::now` reads: in the deduplication cache, before the rate limiter and in it.
pub record Clocks : Type 0 where
  pub cached : ℕ
  pub clock : ℕ
  pub now : ℕ

abbrev pub text_or_empty : Option String → String
text_or_empty none = ""
text_or_empty (some t) = t

abbrev pub with_mentions : BotConfig → Dict String String → AgentEvent → AgentEvent
with_mentions conf names event = record event {
  is_mentioned = contains event.mentions conf.npub;
  mentioned_bot_ids = mentioned names [] event.mentions;
}

-- After the rate limit of the group; the `rate_limited` notices to the handlers are left out.
unfoldable pub after_limit :
    AgentEvent
    → List HandlerRef
    → Dispatch
    → RateLimiter × Bool
    → Dispatch × Result (Option (AgentEvent × List HandlerRef))
after_limit event handlers s (limiter, true) =
    (record s { limiter = limiter }, ok (some (event, handlers)))
after_limit event handlers s (limiter, false) = (
  record s {
    limiter = limiter;
    metrics = record s.metrics {
      group_messages_rate_limited_total = s.metrics.group_messages_rate_limited_total + 1;
    };
  },
  ok none,
)

-- After the look into the deduplication cache.
unfoldable pub after_dedup :
    Clocks
    → AgentEvent
    → List HandlerRef
    → Dispatch
    → DedupCache × Bool
    → Dispatch × Result (Option (AgentEvent × List HandlerRef))
unfolding after_limit check_group
after_dedup c event handlers s (cache, true) = (record s { dedup = cache }, ok none)
after_dedup c event handlers s (cache, false) =
    after_limit event handlers (record s { dedup = cache })
      (check_group c.clock event.bot_id (text_or_empty event.chat_id) c.now s.limiter)

-- `format!("{}:{}", event.bot_id, event_id)`
abbrev pub dedup_key : AgentEvent → String
dedup_key event = format (event.bot_id ∷ ":" ∷ event.event_id ∷ [])

-- `bot_config.dedup_window()`, in nanoseconds.
abbrev pub window_of : BotConfig → ℕ
window_of conf = dedup_window conf * second

-- `Dispatch::process_mls_group_message`: the event and the handlers that it goes on with, if any.
unfoldable pub process_mls_group_message :
    Clocks
    → BotConfig
    → Dict String String
    → AgentEvent
    → List HandlerRef
    → Exec (Option (AgentEvent × List HandlerRef))
unfolding mentioned is_duplicate after_dedup dedup_window allows
process_mls_group_message c conf names event handlers s =
    after_dedup c (with_mentions conf names event)
      (keep (λ h. allows h event.bot_id "ReceiveGroupMessages") handlers) s
      (is_duplicate (dedup_key event) c.cached (window_of conf) s.dedup)

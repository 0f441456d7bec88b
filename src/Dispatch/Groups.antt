-- ===== src/Dispatch/Groups.antt =====
-- Group messages in src/dispatch.rs: who is told of them, and how often.
use pacto_bot_api.Prelude.{
  ◌-◌, ◌≤◌, ◌<◌, String, Bool, true, false, none, some, List, ◌≡◌, refl, sym, ap, ◌∙◌, subst,
  length, string_eq, All, keep, keep-All,
}
use pacto_bot_api.Prelude.Dict.{Dict, Distinct, get}
use pacto_bot_api.Config.{BotConfig}
use pacto_bot_api.Errors.{ok}
use pacto_bot_api.Events.{AgentEvent}
use pacto_bot_api.Handlers.{HandlerRef, allows}
use pacto_bot_api.Limits.{RateLimiter, DedupCache, is_duplicate, check_group}
use pacto_bot_api.Limits.Duplicates.{fresh_is_recorded, duplicate_complete}
use pacto_bot_api.Dispatch.State.{Dispatch}
use pacto_bot_api.Dispatch.Delivery.{
  Clocks, after_limit, after_dedup, dedup_key, window_of, with_mentions, text_or_empty,
  process_mls_group_message,
}

after_limit-some :
    (event e' : AgentEvent) (handlers hs : List HandlerRef) (s s' : Dispatch)
    (out : RateLimiter × Bool)
    → after_limit event handlers s out ≡ (s', ok (some (e', hs)))
    → (out.1 ≡ true) × (e' ≡ event) × (hs ≡ handlers) × (s'.dedup ≡ s.dedup)
unfolding after_limit
after_limit-some event e' handlers hs s s' (l, true) h = (refl, cc, cc, sym (ap (λ o. o.0.dedup) h))
after_limit-some event e' handlers hs s s' (l, false) h = cc

after_dedup-some :
    (c : Clocks) (event e' : AgentEvent) (handlers hs : List HandlerRef) (s s' : Dispatch)
    (out : DedupCache × Bool)
    → after_dedup c event handlers s out ≡ (s', ok (some (e', hs)))
    → (out.1 ≡ false)
      × ((check_group c.clock event.bot_id (text_or_empty event.chat_id) c.now s.limiter).1 ≡ true)
      × (e' ≡ event)
      × (hs ≡ handlers)
      × (s'.dedup ≡ out.0)
unfolding after_dedup
after_dedup-some c event e' handlers hs s s' (cache, true) h = cc
after_dedup-some c event e' handlers hs s s' (cache, false) h =
    let limited = check_group c.clock event.bot_id (text_or_empty event.chat_id) c.now s.limiter in
    let (allowed, told, who, kept) =
      after_limit-some event e' handlers hs (record s { dedup = cache }) s' limited h in
    (refl, allowed, told, who, kept)

after_dedup-none :
    (c : Clocks) (event : AgentEvent) (handlers : List HandlerRef) (s : Dispatch)
    (out : DedupCache × Bool)
    → out.1 ≡ true
    → ((after_dedup c event handlers s out).1 ≡ ok none)
      × ((after_dedup c event handlers s out).0.limiter ≡ s.limiter)
unfolding after_dedup
after_dedup-none c event handlers s (cache, true) h = (refl, refl)
after_dedup-none c event handlers s (cache, false) h = cc

module _ (c : Clocks) (conf : BotConfig) (names : Dict String String) (event e' : AgentEvent)
    (handlers hs : List HandlerRef) (s s' : Dispatch)
    (went_on : process_mls_group_message c conf names event handlers s
      ≡ (s', ok (some (e', hs)))) where
  -- A group message that goes on to handlers is no duplicate and within the group's rate; each of
  -- those handlers may receive the bot's group messages; and the message is recorded.
  pub group_message_goes_on :
      ((is_duplicate (dedup_key event) c.cached (window_of conf) s.dedup).1 ≡ false)
      × ((check_group c.clock event.bot_id (text_or_empty event.chat_id) c.now s.limiter).1 ≡ true)
      × All (λ h. allows h event.bot_id "ReceiveGroupMessages" ≡ true) hs
      × (get (dedup_key event) s'.dedup.seen ≡ some c.cached)
  unfolding process_mls_group_message
  group_message_goes_on =
      let (fresh, allowed, _, same, cached) =
        after_dedup-some c (with_mentions conf names event) e' _ hs s s'
          (is_duplicate (dedup_key event) c.cached (window_of conf) s.dedup) went_on in
      (
        fresh,
        allowed,
        subst (All (λ h. allows h event.bot_id "ReceiveGroupMessages" ≡ true)) (sym same)
            (keep-All (λ h. allows h event.bot_id "ReceiveGroupMessages") handlers),
        ap (λ d. get (dedup_key event) d.seen) cached
            ∙ fresh_is_recorded (dedup_key event) c.cached (window_of conf) s.dedup fresh,
      )

  -- A group message that went on to handlers is dropped when it comes again for the same bot
  -- within the bot's window, if the cache still has the record and is not over its size: no handler
  -- is told, and the limiter gives no token for it.
  pub group_message_comes_again :
      (again : Clocks) (others : List HandlerRef) (later : Dispatch)
      → later.dedup ≡ s'.dedup
      → Distinct s'.dedup.seen
      → length s'.dedup.seen ≤ s'.dedup.max_size
      → again.cached - c.cached < window_of conf
      → ((process_mls_group_message again conf names event others later).1 ≡ ok none)
        × ((process_mls_group_message again conf names event others later).0.limiter
            ≡ later.limiter)
  unfolding process_mls_group_message
  group_message_comes_again again others later kept d fits near =
      let known =
        duplicate_complete (dedup_key event) again.cached (window_of conf) s'.dedup c.cached d fits
          group_message_goes_on.3 near in
      let dropped : (is_duplicate (dedup_key event) again.cached (window_of conf) later.dedup).1
          ≡ true =
        ap (λ x. (is_duplicate (dedup_key event) again.cached (window_of conf) x).1) kept ∙ known in
      after_dedup-none again (with_mentions conf names event)
        (keep (λ h. allows h event.bot_id "ReceiveGroupMessages") others) later
        (is_duplicate (dedup_key event) again.cached (window_of conf) later.dedup) dropped

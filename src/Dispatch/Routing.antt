-- ===== src/Dispatch/Routing.antt =====
-- The two steps of `dispatch_event` in src/dispatch.rs: what it does before it waits for responses
-- and what it does from there. `take_responses` is where it stops waiting.
use pacto_bot_api.Prelude.{
  ℕ, suc, ◌+◌, ◌^◌, String, Option, none, some, List, [], ◌∷◌, length, map, string_eq, ◌==◌, ltb,
  if◌then◌else◌,
}
use pacto_bot_api.Prelude.Dict.{get, insert, remove, values}
use pacto_bot_api.Errors.{ok, err, ok_or, config, unknown_bot}
use pacto_bot_api.Events.{AgentEvent, event_type_eq, mls_group_message_received}
use pacto_bot_api.Handlers.{HandlerRef, Channels, find}
use pacto_bot_api.Dispatch.State.{
  DirectMessage, Tables, PendingDispatch, HandlerAction, reply, send_dm, DbFaults, Exec, ◌>>=◌,
  ◌>>◌, done, lift, gets, modify, write, attempt, fail,
}
use pacto_bot_api.Dispatch.Actions.{action_label}
use pacto_bot_api.Dispatch.Responses.{Gathered, collect, max_responses_per_handler}
use pacto_bot_api.Dispatch.Sending.{Network, handle_send_dm}
use pacto_bot_api.Dispatch.Delivery.{
  Clocks, accept_welcome, process_mls_group_message, npub_to_bot_id_map,
}

-- A dispatch that waits: its event, as the handlers are told it, how many handlers it waits for,
-- and the npub of the event's bot.
pub record Waiting : Type 0 where
  pub event : AgentEvent
  pub expected : ℕ
  pub npub : String

-- `pending.insert(event_id, PendingDispatch { .. })`
abbrev pub new_pending : List HandlerRef → PendingDispatch
new_pending handlers = record {
  queue = [];
  handler_ids = map (λ h. h.id) handlers;
  response_counts = [];
  max_responses = max_responses_per_handler;
}

abbrev pub open_dispatch : String → Option (AgentEvent × List HandlerRef) → Exec (Option Waiting)
open_dispatch npub none = done none
open_dispatch npub (some (event, handlers)) = do
  modify (λ s. record s {
    metrics = record s.metrics { handlers_registered = s.handlers_registered };
    pending = insert event.event_id (new_pending handlers) s.pending;
  })
  done (some (record { event = event; expected = length handlers; npub = npub }))

-- `dispatch_event` up to the loop that receives: the dispatch that then waits, unless the event is
-- dropped. What is sent to the handlers is left out.
unfoldable pub begin_dispatch : DbFaults → Channels → Clocks → AgentEvent → Exec (Option Waiting)
unfolding find accept_welcome process_mls_group_message npub_to_bot_id_map
begin_dispatch db net clocks event = do
  modify (λ s. record s {
    metrics = record s.metrics { events_received_total = s.metrics.events_received_total + 1 };
  })
  s ← gets (λ s. s)
  bot ← lift (ok_or (get event.bot_id s.bots) (unknown_bot event.bot_id))
  let handlers = find net s.registry event.bot_id event.event_type
  accept_welcome db event
  if event.event_type == mls_group_message_received
      then (do
        go_on ←
            process_mls_group_message clocks bot.config (npub_to_bot_id_map (values s.bots)) event
              handlers
        open_dispatch bot.config.npub go_on)
      else open_dispatch bot.config.npub (some (event, handlers))

-- What goes to the event's author.
abbrev pub message_for : AgentEvent → String → Option String → DirectMessage
message_for event content reply_to = record {
  from_bot = event.bot_id;
  recipient = event.author;
  content = content;
  reply_to = reply_to;
}

-- The `match action` of the loop over the responses: the label and the id for the trace.
unfoldable pub perform :
    Network → Clocks → AgentEvent → String → HandlerAction → Exec (String × Option String)
unfolding handle_send_dm action_label
perform net c event hid (reply content) = do
  sent ← attempt (
      handle_send_dm net c.clock c.now (message_for event content (some event.rumor_id)) (some hid))
  done (elim sent [ ok id ↦ ("reply", some id) | err _ ↦ ("reply_failed", none) ])
perform net c event hid (send_dm content) = do
  sent ← attempt (handle_send_dm net c.clock c.now (message_for event content none) (some hid))
  done (elim sent [ ok id ↦ ("send_dm", some id) | err _ ↦ ("send_dm_failed", none) ])
perform net c event hid other = done (action_label other, none)

-- `Db::save_event_trace`
abbrev pub add_trace : AgentEvent → String → Option String → Tables → Tables
add_trace event label sent_id t = record t {
  traces =
      record {
        bot_id = event.bot_id;
        event_id = event.event_id;
        author = event.author;
        action = label;
        reply_event_id = sent_id;
      }
      ∷ t.traces;
}

-- The loop over the responses; `c i` is what the clocks read at the one numbered `i`. A response
-- that fails is passed over.
unfoldable pub process_replies :
    Network → DbFaults → (ℕ → Clocks) → AgentEvent → List (String × HandlerAction) → Exec (Unit {0})
unfolding perform
process_replies net db c event [] = done tt
process_replies net db c event ((hid, action) ∷ rs) = do
  (label, sent_id) ← perform net (c 0) event hid action
  saved ← attempt (write db.save_trace (add_trace event label sent_id))
  process_replies net db (λ i. c (suc i)) event rs

abbrev pub queue_of : Option PendingDispatch → List (String × HandlerAction)
queue_of none = []
queue_of (some p) = p.queue

-- The loop that receives, and the removal of the pending entry after it.
unfoldable pub take_responses : Waiting → Exec Gathered
unfolding collect
take_responses w = do
  s ← gets (λ s. s)
  let g = collect w.expected (queue_of (get w.event.event_id s.pending))
  modify (λ s. record s {
    metrics = record s.metrics {
      handler_responses_total = s.metrics.handler_responses_total + g.received;
    };
    pending = remove w.event.event_id s.pending;
  })
  done g

-- The end of `dispatch_event`: `i64::try_from`, `last_cursor` and `Db::save_cursor`.
unfoldable pub advance_cursor : DbFaults → Waiting → Exec (Unit {0})
advance_cursor db w =
    if ltb w.event.timestamp (2 ^ 63)
    then (do
      modify (λ s. record s {
        last_cursor = insert w.event.bot_id (w.npub, w.event.timestamp) s.last_cursor;
      })
      write db.save_cursor
          (λ t. record t { cursors = insert w.event.bot_id (w.npub, w.event.timestamp) t.cursors }))
    else fail (config "event timestamp out of range")

-- `dispatch_event` from the loop that receives to its end.
unfoldable pub finish_dispatch : Network → DbFaults → (ℕ → Clocks) → Waiting → Exec (Unit {0})
unfolding take_responses process_replies advance_cursor
finish_dispatch net db c w = do
  g ← take_responses w
  process_replies net db c w.event g.responses
  if g.any_defer then done tt else advance_cursor db w

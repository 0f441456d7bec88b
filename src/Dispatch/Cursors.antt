-- ===== src/Dispatch/Cursors.antt =====
-- The end of a dispatch in src/dispatch.rs: its pending entry goes, and the bot's cursor moves to
-- the event unless a handler deferred.
use pacto_bot_api.Prelude.{
  ℕ, suc, ◌^◌, ◌<◌, String, Bool, true, false, Option, none, some, List, [], ◌∷◌, ◌≡◌, refl, inl,
  inr, string_eq, Option-cases, Bool-cases, ap, ◌∙◌, if◌then◌else◌, lt→ltb,
}
use pacto_bot_api.Prelude.Dict.{Dict, get, insert, remove}
use pacto_bot_api.Errors.{DaemonError, Result, ok, err, unauthorized_bot}
use pacto_bot_api.Events.{AgentEvent}
use pacto_bot_api.Handlers.{is_authorized}
use pacto_bot_api.Limits.{RateLimiter, check}
use pacto_bot_api.Dispatch.State.{
  Dispatch, DirectMessage, PendingDispatch, HandlerAction, ack, reply, send_dm, defer, ignore,
  DbFaults, continue, fail, write,
}
use pacto_bot_api.Dispatch.Responses.{Gathered, collect, admit, rate_limit, spent}
use pacto_bot_api.Dispatch.Sending.{Network, publish, handle_send_dm}
use pacto_bot_api.Dispatch.Delivery.{Clocks}
use pacto_bot_api.Dispatch.Routing.{
  Waiting, perform, process_replies, take_responses, queue_of, advance_cursor, finish_dispatch,
  message_for, add_trace,
}
use pacto_bot_api.Dispatch.Rules.{keeps_part}

-- What answering an event leaves alone.
abbrev Still : Type 0
Still = Dict String PendingDispatch × Dict String (String × ℕ) × Dict String (String × ℕ)

abbrev still : Dispatch → Still
still s = (s.pending, s.last_cursor, s.tables.cursors)

spent-still :
    (hid : String) (s : Dispatch) (out : RateLimiter × Bool) → still (spent hid s out).0 ≡ still s
unfolding spent
spent-still hid s (l, true) = refl
spent-still hid s (l, false) = refl

admit_after-still :
    (clock now : ℕ) (hid bot_id : String) (s : Dispatch) (r : Result Bool)
    → still
        (continue
          (s, r)
          (λ b. if b then rate_limit clock now hid bot_id else fail unauthorized_bot)).0
      ≡ still s
unfolding rate_limit
admit_after-still clock now hid bot_id s (err _) = refl
admit_after-still clock now hid bot_id s (ok false) = refl
admit_after-still clock now hid bot_id s (ok true) =
    spent-still hid s (check clock hid bot_id now s.limiter)

admit-still :
    (clock now : ℕ) (handler_id : Option String) (bot_id capability : String) (s : Dispatch)
    → still (admit clock now handler_id bot_id capability s).0 ≡ still s
unfolding admit
admit-still clock now none bot_id capability s = refl
admit-still clock now (some hid) bot_id capability s =
    admit_after-still clock now hid bot_id s (is_authorized s.registry hid bot_id capability)

publish-still :
    (net : Network) (m : DirectMessage) (s : Dispatch) → still (publish net m s).0 ≡ still s
unfolding publish
publish-still net m s = elim (Option-cases (get m.from_bot s.bots)) [
  | inl e ↦ rw e refl
  | inr (b, e) ↦ rw e refl
]

handle_send_dm-still :
    (net : Network) (clock now : ℕ) (m : DirectMessage) (hid : Option String) (s : Dispatch)
    → still (handle_send_dm net clock now m hid s).0 ≡ still s
unfolding handle_send_dm
handle_send_dm-still net clock now m hid s =
    keeps_part still (admit clock now hid m.from_bot "SendMessages" s) (λ x. publish net m)
      (admit-still clock now hid m.from_bot "SendMessages" s) (λ x s1. publish-still net m s1)

perform-still :
    (net : Network) (c : Clocks) (event : AgentEvent) (hid : String) (a : HandlerAction)
    (s : Dispatch)
    → still (perform net c event hid a s).0 ≡ still s
unfolding perform
perform-still net c event hid ack s = refl
perform-still net c event hid (reply content) s =
    handle_send_dm-still net c.clock c.now (message_for event content (some event.rumor_id))
      (some hid) s
perform-still net c event hid (send_dm content) s =
    handle_send_dm-still net c.clock c.now (message_for event content none) (some hid) s
perform-still net c event hid defer s = refl
perform-still net c event hid ignore s = refl

perform-ok :
    (net : Network) (c : Clocks) (event : AgentEvent) (hid : String) (a : HandlerAction)
    (s : Dispatch)
    → (x : String × Option String) × (perform net c event hid a s
        ≡ ((perform net c event hid a s).0, ok x))
unfolding perform
perform-ok net c event hid ack s = (_, refl)
perform-ok net c event hid (reply content) s = (_, refl)
perform-ok net c event hid (send_dm content) s = (_, refl)
perform-ok net c event hid defer s = (_, refl)
perform-ok net c event hid ignore s = (_, refl)

trace-still :
    (fault : Option DaemonError) (event : AgentEvent) (x : String × Option String) (s : Dispatch)
    → still (write fault (add_trace event x.0 x.1) s).0 ≡ still s
trace-still none event x s = refl
trace-still (some e) event x s = refl

-- The loop over the responses always comes to its end, and leaves the pending entries and the
-- cursors alone.
process_replies-ok :
    (net : Network) (db : DbFaults) (c : ℕ → Clocks) (event : AgentEvent)
    (rs : List (String × HandlerAction)) (s : Dispatch)
    → (s' : Dispatch) × (process_replies net db c event rs s ≡ (s', ok tt)) × (still s' ≡ still s)
unfolding process_replies
process_replies-ok net db c event [] s = (s, refl, refl)
process_replies-ok net db c event ((hid, a) ∷ rs) s =
    let (x, came) = perform-ok net (c 0) event hid a s in
    let s1 = (perform net (c 0) event hid a s).0 in
    let (s', through, kept) =
      process_replies-ok net db (λ i. c (suc i)) event rs
        (write db.save_trace (add_trace event x.0 x.1) s1).0 in
    (
      s',
      rw came through,
      kept ∙ trace-still db.save_trace event x s1 ∙ perform-still net (c 0) event hid a s,
    )

-- The state after the cursor of the dispatch's bot moved to its event.
abbrev moved : Waiting → Dispatch → Dispatch
moved w s = record s {
  last_cursor = insert w.event.bot_id (w.npub, w.event.timestamp) s.last_cursor;
  tables = record s.tables {
    cursors = insert w.event.bot_id (w.npub, w.event.timestamp) s.tables.cursors;
  };
}

-- What the handlers had answered when the dispatch stopped waiting.
abbrev pub gathered : Waiting → Dispatch → Gathered
gathered w s = collect w.expected (queue_of (get w.event.event_id s.pending))

module _ (net : Network) (db : DbFaults) (c : ℕ → Clocks) (w : Waiting) (s : Dispatch) where
  -- A dispatch, once it stops waiting, comes to its end with its pending entry removed and every
  -- other one kept. With no `defer` among what it received, the bot's cursor, in memory and in the
  -- database, is the event's time; with one, no cursor moves. This holds for a time that fits an
  -- `i64` and a database that takes the cursor, whatever becomes of the replies and their traces.
  pub finish_dispatch_cursor :
      w.event.timestamp < 2 ^ 63
      → db.save_cursor ≡ none
      → (s' : Dispatch) × (finish_dispatch net db c w s ≡ (s', ok tt))
        × (s'.pending ≡ remove w.event.event_id s.pending)
        × (s'.last_cursor ≡ (
            if (gathered w s).any_defer
            then s.last_cursor
            else insert w.event.bot_id (w.npub, w.event.timestamp) s.last_cursor))
        × (s'.tables.cursors ≡ (
            if (gathered w s).any_defer
            then s.tables.cursors
            else insert w.event.bot_id (w.npub, w.event.timestamp) s.tables.cursors))
  unfolding finish_dispatch take_responses advance_cursor
  finish_dispatch_cursor fits up =
      let (s1, through, kept) =
        process_replies-ok net db c w.event (gathered w s).responses (take_responses w s).0 in
      elim (Bool-cases (gathered w s).any_defer) [
        | inl deferred ↦ (
          s1,
          rw (through, deferred) refl,
          ap (λ k. k.0) kept,
          rw deferred (ap (λ k. k.1) kept),
          rw deferred (ap (λ k. k.2) kept),
        )
        | inr not_deferred ↦ (
          moved w s1,
          rw (through, not_deferred, lt→ltb w.event.timestamp (2 ^ 63) fits, up) refl,
          ap (λ k. k.0) kept,
          rw not_deferred (ap (λ k. insert w.event.bot_id (w.npub, w.event.timestamp) k.1) kept),
          rw not_deferred (ap (λ k. insert w.event.bot_id (w.npub, w.event.timestamp) k.2) kept),
        )
      ]

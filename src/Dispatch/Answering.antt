-- ===== src/Dispatch/Answering.antt =====
-- `handle_response` of src/dispatch.rs over many responses: who is heard, and how often.
use pacto_bot_api.Prelude.{
  ℕ, ◌+◌, ◌≤◌, String, true, false, Option, none, some, List, [], ◌∷◌, ◌++◌, contains, ◌≡◌, refl,
  sym, subst, inl, inr, arith, string_eq, ◌==◌, eq_iff, Bool-cases, leb, if◌then◌else◌, All,
}
use pacto_bot_api.Prelude.Dict.{get, insert, get-insert, get-remove}
use pacto_bot_api.Errors.{ok}
use pacto_bot_api.Dispatch.State.{Dispatch, PendingDispatch, HandlerAction}
use pacto_bot_api.Dispatch.Actions.{Params}
use pacto_bot_api.Events.{AgentEvent}
use pacto_bot_api.Handlers.{HandlerRef}
use pacto_bot_api.Dispatch.Routing.{Waiting, new_pending, open_dispatch, take_responses}
use pacto_bot_api.Dispatch.Rules.{after_lift}
use pacto_bot_api.Dispatch.Responses.{
  respond, respond_to, responder, response_count, handle_response, max_responses_per_handler,
  parse_response, answer,
}

abbrev pub answers_of : String → List (String × HandlerAction) → ℕ
answers_of hid [] = 0
answers_of hid ((j, _) ∷ rest) = (if j == hid then 1 else 0) + answers_of hid rest

-- The queue holds what the counts say, within the limit, and only from handlers that were asked.
pub record IsOrderly (p : PendingDispatch) : Type 0 where
  pub counted : (hid : String) → answers_of hid p.queue ≡ response_count hid p
  pub limited : (hid : String) → response_count hid p ≤ p.max_responses
  pub once : p.max_responses ≡ max_responses_per_handler
  pub asked : All (λ r. contains p.handler_ids r.0 ≡ true) p.queue

answers_of-append :
    (hid : String) (xs ys : List (String × HandlerAction))
    → answers_of hid (xs ++ ys) ≡ answers_of hid xs + answers_of hid ys
answers_of-append hid [] ys = omega arith
answers_of-append hid ((j, a) ∷ xs) ys = omega (arith, answers_of-append hid xs ys)

All-append :
    (ids : List String) (xs : List (String × HandlerAction)) (hid : String) (a : HandlerAction)
    → All (λ r. contains ids r.0 ≡ true) xs
    → contains ids hid ≡ true
    → All (λ r. contains ids r.0 ≡ true) (xs ++ ((hid, a) ∷ []))
All-append ids [] hid a all here = (here, tt)
All-append ids (x ∷ xs) hid a all here = (all.0, All-append ids xs hid a all.1 here)

-- What an accepted response needs and does.
respond-eq-ok :
    (hid : String) (a : HandlerAction) (p p' : PendingDispatch)
    → respond hid a p ≡ ok p'
    → (contains p.handler_ids hid ≡ true)
      × (leb p.max_responses (response_count hid p) ≡ false)
      × (p' ≡ record p {
        response_counts = insert hid (response_count hid p + 1) p.response_counts;
        queue = p.queue ++ ((hid, a) ∷ []);
      })
unfolding respond
respond-eq-ok hid a p p' h = (ground arith, ground arith, ground arith)

fresh_answer-IsOrderly :
    (hid : String) (a : HandlerAction) (p : PendingDispatch)
    → contains p.handler_ids hid ≡ true
    → leb p.max_responses (response_count hid p) ≡ false
    → IsOrderly p
    → IsOrderly (record p {
      response_counts = insert hid (response_count hid p + 1) p.response_counts;
      queue = p.queue ++ ((hid, a) ∷ []);
    })
unfolding response_count
fresh_answer-IsOrderly hid a p asked room o = record {
  counted = λ j. ground (
    arith,
    answers_of-append j p.queue ((hid, a) ∷ []),
    o.counted j,
    o.counted hid,
    get-insert hid j (response_count hid p + 1) p.response_counts,
    eq_iff hid j,
  );
  limited = λ j. ground (
    arith,
    o.limited j,
    o.limited hid,
    get-insert hid j (response_count hid p + 1) p.response_counts,
    eq_iff hid j,
  );
  once = o.once;
  asked = All-append p.handler_ids p.queue hid a o.asked asked;
}

respond-IsOrderly :
    (hid : String) (a : HandlerAction) (p p' : PendingDispatch)
    → respond hid a p ≡ ok p'
    → IsOrderly p
    → IsOrderly p'
respond-IsOrderly hid a p p' h o =
    let (asked, room, same) = respond-eq-ok hid a p p' h in
    subst IsOrderly (sym same) (fresh_answer-IsOrderly hid a p asked room o)

-- Every dispatch that waits is orderly.
abbrev pub AllOrderly : Dispatch → Type 0
AllOrderly s =
    (event_id : String) (p : PendingDispatch) → get event_id s.pending ≡ some p → IsOrderly p

-- The outcome of a response to a dispatch that waits.
respond_to-AllOrderly :
    (p : Option PendingDispatch) (handler_id : Option String) (event_id : String)
    (a : HandlerAction) (s : Dispatch)
    → get event_id s.pending ≡ p
    → AllOrderly s
    → AllOrderly (respond_to p handler_id event_id a s).0
unfolding respond_to
respond_to-AllOrderly none handler_id event_id a s found o = o
respond_to-AllOrderly (some p) handler_id event_id a s found o =
    after_lift AllOrderly (respond (responder handler_id) a p) _ s o (λ p' e j x there.
      elim (Bool-cases (event_id == j)) [
        | inl here ↦
            subst IsOrderly (ground (arith, get-insert event_id j p' s.pending))
              (respond-IsOrderly (responder handler_id) a p p' e (o event_id p found))
        | inr other ↦ o j x (ground (arith, get-insert event_id j p' s.pending))
      ])

pub handle_response-AllOrderly :
    (handler_id : Option String) (params : Option Params) (s : Dispatch)
    → AllOrderly s
    → AllOrderly (handle_response handler_id params s).0
unfolding handle_response answer
handle_response-AllOrderly handler_id params s o =
    after_lift AllOrderly (parse_response params) (answer handler_id) s o
      (λ r _. respond_to-AllOrderly (get r.0 s.pending) handler_id r.0 r.1 s refl o)

-- What touches the entries that wait: a response, the entry of a dispatch, and its end.
pub data Signal : Type 0 where
  responds : Option String → Option Params → Signal
  opens : String → AgentEvent → List HandlerRef → Signal
  takes : Waiting → Signal

unfoldable pub signal : Dispatch → Signal → Dispatch
unfolding handle_response take_responses
signal s (responds handler_id params) = (handle_response handler_id params s).0
signal s (opens npub event handlers) = (open_dispatch npub (some (event, handlers)) s).0
signal s (takes w) = (take_responses w s).0

unfoldable pub signals : Dispatch → List Signal → Dispatch
unfolding signal
signals s [] = s
signals s (x ∷ xs) = signals (signal s x) xs

new_pending-IsOrderly : (handlers : List HandlerRef) → IsOrderly (new_pending handlers)
unfolding response_count get
new_pending-IsOrderly handlers = record {
  counted = λ hid. refl;
  limited = λ hid. omega arith;
  once = refl;
  asked = tt;
}

signal-AllOrderly : (s : Dispatch) (x : Signal) → AllOrderly s → AllOrderly (signal s x)
unfolding signal take_responses
signal-AllOrderly s (responds handler_id params) o =
    handle_response-AllOrderly handler_id params s o
signal-AllOrderly s (opens npub event handlers) o = λ j x there.
    elim (Bool-cases (event.event_id == j)) [
      | inl here ↦
          subst IsOrderly
            (ground (arith, get-insert event.event_id j (new_pending handlers) s.pending))
            (new_pending-IsOrderly handlers)
      | inr other ↦
          o j x (ground (arith, get-insert event.event_id j (new_pending handlers) s.pending))
    ]
signal-AllOrderly s (takes w) o =
    λ j x there. o j x (ground (arith, get-remove w.event.event_id j s.pending))

signals-AllOrderly : (s : Dispatch) (xs : List Signal) → AllOrderly s → AllOrderly (signals s xs)
unfolding signals
signals-AllOrderly s [] o = o
signals-AllOrderly s (x ∷ xs) o = signals-AllOrderly (signal s x) xs (signal-AllOrderly s x o)

-- Whatever dispatches are entered and taken, and whatever responses come, from whomever, for a
-- dispatch that waits at most one response of each handler is kept, and each one that is kept is
-- from a handler that the event was dispatched to.
pub heard_at_most_once :
    (s : Dispatch) (xs : List Signal) (event_id : String) (p : PendingDispatch) (hid : String)
    → s.pending ≡ []
    → get event_id (signals s xs).pending ≡ some p
    → (answers_of hid p.queue ≤ 1) × All (λ r. contains p.handler_ids r.0 ≡ true) p.queue
unfolding get
heard_at_most_once s xs event_id p hid none_waits waits =
    let o = signals-AllOrderly s xs (λ j x there. cc (rw none_waits at there)) event_id p waits in
    (omega (arith, o.counted hid, o.limited hid, o.once), o.asked)

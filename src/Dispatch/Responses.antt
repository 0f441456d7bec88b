-- ===== src/Dispatch/Responses.antt =====
-- What handlers send to src/dispatch.rs about an event or an error: `handle_response` and
-- `handle_error`, and the loop of `dispatch_event` that receives the responses.
use pacto_bot_api.Prelude.{
  ℕ, zero, suc, ◌+◌, String, Bool, true, false, Option, none, some, List, [], ◌∷◌, ◌++◌, contains,
  string_eq, leb, if◌then◌else◌,
}
use pacto_bot_api.Prelude.Dict.{get, insert}
use pacto_bot_api.Errors.{
  Result, ok, err, ok_or, config, handler_not_dispatched, rate_limited, handler_not_registered,
  unauthorized_bot,
}
use pacto_bot_api.Handlers.{is_authorized}
use pacto_bot_api.Limits.{RateLimiter, check}
use pacto_bot_api.Dispatch.State.{
  Dispatch, PendingDispatch, HandlerAction, defer, Exec, ◌>>=◌, done, fail, lift, gets, modify,
  and_then,
}
use pacto_bot_api.Dispatch.Actions.{Params, from_value}

-- `MAX_RESPONSES_PER_HANDLER`
abbrev pub max_responses_per_handler : ℕ
max_responses_per_handler = 1

-- `response_counts.get(id).copied().unwrap_or(0)`
unfoldable pub response_count : String → PendingDispatch → ℕ
response_count hid p = elim (get hid p.response_counts) [ none ↦ 0 | some n ↦ n ]

-- The body of `handle_response` under the lock, for the pending dispatch it found.
unfoldable pub respond : String → HandlerAction → PendingDispatch → Result PendingDispatch
unfolding response_count
respond hid action p =
    if contains p.handler_ids hid
    then (if leb p.max_responses (response_count hid p)
        then err rate_limited
        else ok (record p {
          response_counts = insert hid (response_count hid p + 1) p.response_counts;
          queue = p.queue ++ ((hid, action) ∷ []);
        }))
    else err handler_not_dispatched

-- `handler_id.unwrap_or("unknown")`
unfoldable pub responder : Option String → String
responder none = "unknown"
responder (some hid) = hid

-- The branches of `handle_response` on `pending.get_mut(event_id)`.
unfoldable pub respond_to :
    Option PendingDispatch → Option String → String → HandlerAction → Exec (Unit {0})
unfolding respond responder
respond_to none handler_id event_id action = done tt
respond_to (some p) handler_id event_id action = do
  p' ← lift (respond (responder handler_id) action p)
  modify (λ s. record s { pending = insert event_id p' s.pending })

-- The parameters of a `handler.response`: the event and the action, the first that fails deciding.
abbrev pub parse_response : Option Params → Result (String × HandlerAction)
parse_response none = err (config "handler.response missing params")
parse_response (some value) =
    and_then (ok_or (value "event_id") (config "handler.response missing event_id"))
      (λ event_id. and_then (from_value value) (λ action. ok (event_id, action)))

-- `handle_response` once its parameters are read.
unfoldable pub answer : Option String → String × HandlerAction → Exec (Unit {0})
unfolding respond_to
answer handler_id (event_id, action) = do
  p ← gets (λ s. get event_id s.pending)
  respond_to p handler_id event_id action

-- `Dispatch::handle_response`
unfoldable pub handle_response : Option String → Option Params → Exec (Unit {0})
unfolding from_value answer
handle_response handler_id params = do
  parsed ← lift (parse_response params)
  answer handler_id parsed

-- What follows the answer of the rate limiter; a call over the limit is counted.
unfoldable pub spent : String → Dispatch → RateLimiter × Bool → Dispatch × Result String
spent hid s (limiter, true) = (record s { limiter = limiter }, ok hid)
spent hid s (limiter, false) = (
  record s {
    limiter = limiter;
    metrics = record s.metrics { rate_limited_total = s.metrics.rate_limited_total + 1 };
  },
  err rate_limited,
)

unfoldable pub rate_limit : ℕ → ℕ → String → String → Exec String
unfolding check spent
rate_limit clock now hid bot_id s = spent hid s (check clock hid bot_id now s.limiter)

-- The gate that most calls of a handler pass: `is_authorized`, then the rate limit. `clock` and
-- `now` are the two readings of `Instant::now`.
unfoldable pub admit : ℕ → ℕ → Option String → String → String → Exec String
unfolding is_authorized rate_limit
admit clock now handler_id bot_id capability = do
  hid ← lift (ok_or handler_id handler_not_registered)
  s ← gets (λ s. s)
  authorized ← lift (is_authorized s.registry hid bot_id capability)
  if authorized then rate_limit clock now hid bot_id else fail unauthorized_bot

-- What `Diagnostics::record_error` is told: the code and the message.
abbrev pub ErrorReport : Type 0
ErrorReport = Option String × String

abbrev message_or_default : Option String → String
message_or_default none = "unknown error"
message_or_default (some m) = m

-- `Dispatch::handle_error`; it comes back with what it reports.
unfoldable pub handle_error : ℕ → ℕ → Option String → Option Params → Exec ErrorReport
unfolding admit
handle_error clock now handler_id params = do
  value ← lift (ok_or params (config "agent.error missing params"))
  bot_id ← lift (ok_or (value "bot_id") (config "agent.error missing bot_id"))
  hid ← admit clock now handler_id bot_id "ReadMessages"
  done (value "code", message_or_default (value "message"))

-- What the loop of `dispatch_event` that receives has gathered, when it stopped: the responses, how
-- many it received, and whether one was `defer`.
pub record Gathered : Type 0 where
  pub responses : List (String × HandlerAction)
  pub received : ℕ
  pub any_defer : Bool

abbrev gathered_nothing : Gathered
gathered_nothing = record { responses = []; received = 0; any_defer = false }

abbrev gather : String × HandlerAction → Gathered → Gathered
gather r g = record {
  responses = r ∷ g.responses;
  received = g.received + 1;
  any_defer = g.any_defer;
}

-- The loop `while responses.len() < expected`, over what arrives before the deadline and in that
-- order; the first argument is how many more it waits for.
unfoldable pub collect : ℕ → List (String × HandlerAction) → Gathered
collect zero queue = gathered_nothing
collect (suc n) [] = gathered_nothing
collect (suc n) ((hid, defer) ∷ queue) = record { responses = []; received = 1; any_defer = true }
collect (suc n) ((hid, action) ∷ queue) = let rest = collect n queue in gather (hid, action) rest

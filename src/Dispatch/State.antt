-- ===== src/Dispatch/State.antt =====
-- The state of `Dispatch` in src/dispatch.rs, the tables of the database that it writes, and the
-- monad of its methods. What a method wrote before an error stays written, so the state comes back
-- beside the error too. A method runs as one step, except that a dispatch waits for responses.
use pacto_bot_api.Prelude.{ℕ, String, Option, none, some, List, map, string_eq}
use pacto_bot_api.Prelude.Dict.{Dict, values}
use pacto_bot_api.Config.{BotConfig}
use pacto_bot_api.Errors.{DaemonError, Result, ok, err}
use pacto_bot_api.Events.{EventType}
use pacto_bot_api.Handlers.{HandlerRegistry}
use pacto_bot_api.Limits.{RateLimiter, DedupCache}

-- Action a handler can take: `HandlerAction`.
pub data HandlerAction : Type 0 where
  ack : HandlerAction
  reply send_dm : String → HandlerAction
  defer ignore : HandlerAction

-- `PendingDispatch`. `queue` is what the sender has sent and the dispatch has not received.
pub record PendingDispatch : Type 0 where
  pub queue : List (String × HandlerAction)
  pub handler_ids : List String
  pub response_counts : Dict String ℕ
  pub max_responses : ℕ

-- The fields of `BotState` (src/bot_state.rs) that the dispatcher reads.
pub record Bot : Type 0 where
  pub config : BotConfig
  pub mls_unavailable_reason : Option String

-- `MlsGroupRow` of src/db.rs, as far as it is read here.
pub record Group : Type 0 where
  pub group_name : String
  pub wire_id : String
  pub state_lost_at : Option ℕ

-- A row of `event_trace`, without the preview of the content and the time.
pub record Trace : Type 0 where
  pub bot_id : String
  pub event_id : String
  pub author : String
  pub action : String
  pub reply_event_id : Option String

-- A row of the table `handlers`: its lists as what is read back from their JSON, its time in seconds.
pub record HandlerRow : Type 0 where
  pub bot_ids : List String
  pub event_types : List EventType
  pub capabilities : List String
  pub reconnect_token : String
  pub registered_at : ℕ

-- The tables of src/db.rs: a cursor is the bot's npub and a timestamp.
pub record Tables : Type 0 where
  pub handlers : Dict String HandlerRow
  pub cursors : Dict String (String × ℕ)
  pub groups : Dict String (List Group)
  pub traces : List Trace

-- What a bot's client is asked to send as a direct message (`NostrClient::send_dm`).
pub record DirectMessage : Type 0 where
  pub from_bot : String
  pub recipient : String
  pub content : String
  pub reply_to : Option String

-- Counters of src/diagnostics.rs that the methods here move.
pub record Metrics : Type 0 where
  pub events_received_total : ℕ
  pub handler_responses_total : ℕ
  pub rate_limited_total : ℕ
  pub group_messages_rate_limited_total : ℕ
  pub handlers_registered : ℕ

-- `Dispatch`, with the bots of the `ClientManager` by their ids. `handlers_registered` is an
-- `AtomicU64`. `sent` logs what the Nostr client was asked to send, the last first.
pub record Dispatch : Type 0 where
  pub bots : Dict String Bot
  pub registry : HandlerRegistry
  pub tables : Tables
  pub metrics : Metrics
  pub limiter : RateLimiter
  pub dedup : DedupCache
  pub pending : Dict String PendingDispatch
  pub handlers_registered : ℕ
  pub last_cursor : Dict String (String × ℕ)
  pub sent : List DirectMessage

-- What each call of the database answers at a moment: its error, if it fails.
pub record DbFaults : Type 0 where
  pub save_handler : Option DaemonError
  pub delete_handler : Option DaemonError
  pub load_handlers : Option DaemonError
  pub save_cursor : Option DaemonError
  pub save_trace : Option DaemonError
  pub load_groups : Option DaemonError
  pub clear_state_lost : Option DaemonError

abbrev pub Exec : Type 0 → Type 0
Exec A = Dispatch → Dispatch × Result A

-- The rest of a method, after a step that came back.
abbrev pub continue : {A B : Type 0} → Dispatch × Result A → (A → Exec B) → Dispatch × Result B
continue (s, ok a) rest = rest a s
continue (s, err e) rest = (s, err e)

infixl 5 ◌>>=◌ ◌>>◌
abbrev pub ◌>>=◌ : {A B : Type 0} → Exec A → (A → Exec B) → Exec B
◌>>=◌ step rest s = continue (step s) rest

abbrev pub ◌>>◌ : {B : Type 0} → Exec (Unit {0}) → Exec B → Exec B
◌>>◌ step rest s = continue (step s) (λ _. rest)

abbrev pub done : {A : Type 0} → A → Exec A
done a s = (s, ok a)

abbrev pub fail : {A : Type 0} → DaemonError → Exec A
fail e s = (s, err e)

abbrev pub lift : {A : Type 0} → Result A → Exec A
lift r s = (s, r)

abbrev pub gets : {A : Type 0} → (Dispatch → A) → Exec A
gets f s = (s, ok (f s))

abbrev pub modify : (Dispatch → Dispatch) → Exec (Unit {0})
modify f s = (f s, ok tt)

-- The operator `?` on a plain result.
abbrev pub and_then : {A B : Type 0} → Result A → (A → Result B) → Result B
and_then (err e) next = err e
and_then (ok a) next = next a

-- A step whose error is kept as a value: `match` on a call.
abbrev caught : {A : Type 0} → Dispatch × Result A → Dispatch × Result (Result A)
caught (s, r) = (s, ok r)

abbrev pub attempt : {A : Type 0} → Exec A → Exec (Result A)
attempt step s = caught (step s)

-- A write to the database: it fails and writes nothing, or it writes.
abbrev pub write : Option DaemonError → (Tables → Tables) → Exec (Unit {0})
write none f s = (record s { tables = f s.tables }, ok tt)
write (some e) f s = (s, err e)

-- `cm.bots().map(|(_, b)| b.config.clone())`
unfoldable pub bot_configs : Dispatch → List BotConfig
bot_configs s = map (λ b. b.config) (values s.bots)

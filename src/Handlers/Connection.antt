-- ===== src/Handlers/Connection.antt =====
-- `ConnectionHandle` and `HandlerRef` of src/handlers.rs. A connection names the `tokio` channel
-- that it sends on; what that channel answers at a moment is the parameter `Channels`. Times are
-- nanoseconds; a message is what is sent before it is turned into JSON.
use pacto_bot_api.Prelude.{
  ℕ, ◌-◌, ◌*◌, min, String, Bool, true, false, not, ◌&&◌, Option, none, some, List, ltb, contains,
  string_eq,
}
use pacto_bot_api.Errors.{Result, ok, err, handler_backpressure, handler_not_registered}
use pacto_bot_api.Events.{EventType, event_type_eq}

pub record ConnectionHandle : Type 0 where
  pub sender : ℕ
  pub transport : String

-- `Sender::try_send`
pub data TrySend : Type 0 where
  accepted full closed : TrySend

-- The channels at a moment: `Sender::is_closed`, and the outcome of `Sender::try_send`, which is
-- `Closed` on a closed channel and on no other.
pub record Channels : Type 0 where
  pub is_closed : ℕ → Bool
  pub has_room : ℕ → Bool

abbrev pub try_send : Channels → ℕ → TrySend
try_send net c = elim (net.is_closed c) [
  | true ↦ closed
  | false ↦ elim (net.has_room c) [ true ↦ accepted | false ↦ full ]
]

-- `ConnectionHandle::send`
unfoldable pub send : Channels → ConnectionHandle → Result (Unit {0})
send net c = elim (try_send net c.sender) [
  | accepted ↦ ok tt
  | full ↦ err handler_backpressure
  | closed ↦ err handler_not_registered
]

-- `ConnectionHandle::is_alive`
abbrev pub is_alive : Channels → ConnectionHandle → Bool
is_alive net c = not (net.is_closed c.sender)

pub record HandlerRef : Type 0 where
  pub id : String
  pub connection : Option ConnectionHandle
  pub bot_ids : List String
  pub event_types : List EventType
  pub capabilities : List String
  pub reconnect_token : String
  pub registered_at : ℕ
  pub last_seen : ℕ
  pub transport : String

-- `HandlerRef::is_connected`
unfoldable pub is_connected : Channels → HandlerRef → Bool
is_connected net h = elim h.connection [ none ↦ false | some c ↦ is_alive net c ]

-- `HandlerRef::disconnect`
unfoldable pub disconnect : ℕ → HandlerRef → HandlerRef
disconnect now h = record h { connection = none; last_seen = now }

-- `chrono::Duration::MAX`, in nanoseconds: `i64::MAX` milliseconds.
abbrev pub max_duration : ℕ
max_duration = 9223372036854775807 * 1000000

-- `HandlerRef::is_stale`. A clock that went back gives a negative age, which is never over the
-- timeout; here the age is then 0.
unfoldable pub is_stale : Channels → ℕ → ℕ → HandlerRef → Bool
unfolding is_connected
is_stale net now timeout h =
    not (is_connected net h) && ltb (min timeout max_duration) (now - h.last_seen)

-- `HandlerRef::matches`
unfoldable pub matches : HandlerRef → String → EventType → Bool
matches h bot_id event_type = contains h.bot_ids bot_id && contains h.event_types event_type

-- `HandlerRef::is_authorized`
unfoldable pub allows : HandlerRef → String → String → Bool
allows h bot_id capability = contains h.bot_ids bot_id && contains h.capabilities capability

-- `HandlerRef::send_event`: an absent connection is an error.
unfoldable pub send_event : Channels → HandlerRef → Result (Unit {0})
unfolding send
send_event net h = elim h.connection [ none ↦ err handler_not_registered | some c ↦ send net c ]

-- `HandlerRef::send_status`, `send_rate_limited` and `send_metrics`: an absent connection is none.
unfoldable pub send_if_connected : Channels → HandlerRef → Result (Unit {0})
unfolding send
send_if_connected net h = elim h.connection [ none ↦ ok tt | some c ↦ send net c ]

-- ===== src/MlsGroups/State.antt =====
-- What the requests of src/dispatch.rs over MLS groups read and write: the dispatcher's own state,
-- the tables of the groups, the engine of each bot, and a log of what the Nostr client sent. A
-- request passes a gate over the dispatcher's state, and then acts on the rest.
use pacto_bot_api.Prelude.{ℕ, String, Bool, Option, none, some, List, ◌∷◌, ◌⊎◌, string_eq}
use pacto_bot_api.Prelude.Dict.{Dict, get, insert}
use pacto_bot_api.Nostr.{PublicKey, Event, UnsignedEvent}
use pacto_bot_api.Errors.{
  DaemonError, Result, ok, err, MlsError, worker_disconnected, from_mls_error,
}
use pacto_bot_api.Db.Tables.{Tables}
use pacto_bot_api.Dispatch.{Dispatch, Exec}
use pacto_bot_api.Mls.Engine.{Mdk, Work, MlsResult, catch_unwind}

-- What a client is asked to send: `send_welcome`, `send_evolution_event`, and the event that
-- `send_group_message` signs anew for its bot.
pub data Outgoing : Type 0 where
  welcome : PublicKey → UnsignedEvent → Outgoing
  evolution : Event → Outgoing
  group_message : String → Event → Outgoing

-- Tables, the engines of the bots that have one, by bot, and what was sent, the last first.
pub record World (S : Type 0) : Type 0 where
  pub tables : Tables
  pub engines : Dict String S
  pub relayed : List Outgoing

pub record Service (S : Type 0) : Type 0 where
  pub core : Dispatch
  pub world : World S

-- How an awaited call meets the overall timeout: it comes back in time; or the timeout cuts it off,
-- and the call, which runs on another thread or was on its way, is done all the same, or is not.
pub data Pace : Type 0 where
  in_time cut_done cut_undone : Pace

-- What lies around the dispatcher. A parser gives the text of its error or the value, a call of the
-- database its error if it fails, and a send its error or the id of the event. `envelope` is the JSON
-- of a message for a virtual bucket, `graphemes` counts what a reader sees as characters. `sign_event`
-- is the signer of a bot, on the bytes of an event, `event_id` the hash of an event.
pub record Env (S : Type 0) : Type 0 where
  pub mdk : Mdk S
  pub verify : Event → Bool
  pub parse_public_key : String → String ⊎ PublicKey
  pub to_bech32 : PublicKey → String ⊎ String
  pub parse_relay_url : String → Option String
  pub public_key : String → PublicKey
  pub parse_event_id : String → String ⊎ String
  pub event_tag : String → List String
  pub event_id : UnsignedEvent → String
  pub sign_event : String → UnsignedEvent → String ⊎ String
  pub parse_signature : String → String ⊎ String
  pub graphemes : String → ℕ
  pub envelope : String → String → String
  pub hex_error : String → Option String
  pub display_mls : MlsError → String
  pub display : DaemonError → String
  pub fetch_events : PublicKey → Result (List Event)
  pub now : ℕ
  pub send : Outgoing → Result String
  pub load_mls_group : Option DaemonError
  pub is_bot_invited : Option DaemonError
  pub update_mls_group_invite : Option DaemonError
  pub insert_mls_group : Option DaemonError
  pub delete_mls_group_member : Option DaemonError
  pub load_state_lost_at : Option DaemonError
  pub delete_mls_group : Option DaemonError
  pub fetch_pace : Pace
  pub engine_pace : Pace
  pub member_pace : Pace
  pub send_pace : Outgoing → Pace
  pub insert_pace : Pace

-- A part of a request past its gate.
abbrev pub Act : Type 0 → Type 0 → Type 0
Act S A = World S → World S × Result A

abbrev pub after : {S A B : Type 0} → World S × Result A → (A → Act S B) → World S × Result B
after (w, ok a) rest = rest a w
after (w, err e) rest = (w, err e)

infixl 5 ◌>>=◌ ◌>>◌
abbrev pub ◌>>=◌ : {S A B : Type 0} → Act S A → (A → Act S B) → Act S B
◌>>=◌ step rest w = after (step w) rest

abbrev pub ◌>>◌ : {S B : Type 0} → Act S (Unit {0}) → Act S B → Act S B
◌>>◌ step rest w = after (step w) (λ _. rest)

abbrev pub done : {S A : Type 0} → A → Act S A
done a w = (w, ok a)

abbrev pub fail : {S A : Type 0} → DaemonError → Act S A
fail e w = (w, err e)

abbrev pub lift : {S A : Type 0} → Result A → Act S A
lift r w = (w, r)

abbrev pub tables_of : {S : Type 0} → Act S Tables
tables_of w = (w, ok w.tables)

-- A call of the database may fail before it does anything.
abbrev pub unless_failed : {S : Type 0} → Option DaemonError → Act S (Unit {0})
unless_failed none w = (w, ok tt)
unless_failed (some e) w = (w, err e)

abbrev pub set_tables : {S : Type 0} → Tables → Act S (Unit {0})
set_tables t w = (record w { tables = t }, ok tt)

-- A command to the engine of a bot, whose worker may be gone; its error is kept as it is.
abbrev at_engine :
    {S A : Type 0} → String → World S → S × MlsResult A → World S × Result (MlsResult A)
at_engine bot_id w (s, r) = (record w { engines = insert bot_id s w.engines }, ok r)

unfoldable pub command : {S A : Type 0} → String → Work S A → Act S (MlsResult A)
command bot_id work w = elim (get bot_id w.engines) [
  | none ↦ (w, ok (MlsResult.err worker_disconnected))
  | some s ↦ at_engine bot_id w (catch_unwind (work s))
]

-- `?` on an MLS error, by `From<MlsError>`.
abbrev pub or_mls_error : {S A : Type 0} → MlsResult A → Act S A
or_mls_error (MlsResult.ok a) w = (w, ok a)
or_mls_error (MlsResult.err e) w = (w, err (from_mls_error e))

-- The Nostr client sends, and says so, or fails.
unfoldable pub relay : {S : Type 0} → Env S → Outgoing → Act S String
relay env out w = elim (env.send out) [
  | ok id ↦ (record w { relayed = out ∷ w.relayed }, ok id)
  | err e ↦ (w, err e)
]

-- A request: its gate over the dispatcher's state, and its act, which reads that state.
abbrev pub enter :
    {S X A : Type 0}
    → World S
    → Dispatch × Result X
    → (X → Dispatch → Act S A)
    → Service S × Result A
enter w (core, err e) act = (record { core = core; world = w }, err e)
enter w (core, ok x) act = let out = act x core w in (record { core = core; world = out.0 }, out.1)

abbrev pub guarded :
    {S X A : Type 0} → Exec X → (X → Dispatch → Act S A) → Service S → Service S × Result A
guarded gate act s = enter s.world (gate s.core) act

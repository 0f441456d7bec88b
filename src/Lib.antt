-- ===== src/Lib.antt =====
-- Verification library for pacto-bot-api, the daemon that multiplexes Pacto bot identities and
-- serves handlers over JSON-RPC.
--
-- Parts, and the files that model them:
--   Errors     src/errors.rs. `DaemonError` and `MlsError` are data types, codes are integers, and
--              `Result` carries the errors of all fallible calls of the model.
--   Events     src/events.rs, and `parse_event_type` of src/handlers.rs (Events/Names).
--   Protocol   src/transport/protocol.rs: the method catalogue.
--   Config     src/config.rs: the configuration of a bot.
--   Handlers   src/handlers.rs. `HandlerRef` and `HandlerRegistry` are records; each method is a
--              function that returns the new registry. Handlers/Grants is about `register`,
--              Handlers/Reconnect about `reconnect`, Handlers/Invariant about any run of calls.
--   Limits     the token buckets, their maps, the rate limiter and the deduplication cache of
--              src/dispatch.rs. Limits/Eviction is the loop that two of them share.
--   Dispatch   `Dispatch` of src/dispatch.rs. State is its record, with the tables of src/db.rs, and
--              the monad of its methods; Lifecycle and Notices have registration to restart,
--              Responses `handle_response` and `handle_error`, Sending `handle_send_dm`, Delivery
--              and Routing the two steps of `dispatch_event`, Admin the requests over handlers.
--              The other files below it are about those; Groups is about group messages, Restoring
--              about a restart.
--   Db         src/db.rs: the tables as dictionaries by their primary keys, and the operations on
--              groups, members, cursors and reset markers. Db/Keys has the constraints as an
--              invariant, Db/Reconciling a group that the engine reports, Db/Runs any calls.
--   Nostr      the events of the nostr crate, and which key package `fetch_key_package` of
--              src/nostr.rs takes (KeyPackages, Fetched).
--   Mls        src/mls.rs: the commands of the worker thread that owns a bot's engine (Worker,
--              Messages), over a record of the calls of the MLS library (Engine). Joining is about
--              members that are added or restored, Repairing about admins; Sample is a small library.
--   MlsGroups  the requests of src/dispatch.rs over groups. State joins the dispatcher's state, the
--              tables of Db, the engine of each bot and a log of what is sent; Waiting has the blocks
--              under a timeout. Names and Preflight have the inputs, Creating, Inviting, Sending and
--              Leaving the acts, Requests the gates and the handlers. Created, Creations, Publishing,
--              Invited and Ordered are about groups made and members invited, Racing about two
--              invitations at a time, Callers, Gated and Allowed about who may ask, Texts, Exits
--              and Squads about the other acts.
--   Reset      src/mls_reset.rs and the reader of src/mls_key.rs. Reset/Io has the effects on files
--              and database as a monad with failures, Moves and Classify the code; Kept and Stores
--              are about files that survive, Completing, Ready and Missing about the marker,
--              Finishing, Done and Finished about runs that reach their end.
--   ClientManager  `reconcile_mls_groups` of src/client_manager.rs over the tables of Db, and
--              `construct_mls_bot_state` (Starting), which resets the store first.
--   Diagnostics  src/diagnostics.rs: the ring of minute buckets and the error buffer. Totals
--              compares the ring with the history of events.
--   Spool      src/spool.rs: the staged files, their sweep (Sweeping), and where the path of a handler
--              may lead (Confined).
--   Scaffold   src/scaffold/safety.rs, and src/scaffold/merge.rs (Compose and Merge): which files of
--              a project may be overwritten (Kept and Guarded).
--   Prelude    shared notation, `HashMap` as an association list with distinct keys
--              (Prelude/Dict), and decidable equality as an interface.
-- The dispatcher finds the handlers of an event in the registry, waits for their responses in its
-- table of pending dispatches, and answers through the gate that a handler's own requests pass.
-- A registration passes the configuration's grants into the registry; the dispatcher asks the
-- registry for rights and the limiter for tokens. A reset writes its marker and the administrators
-- that it harvests into the tables of Db. A request over a group passes the dispatcher's gate, asks
-- the bot's engine, writes the tables of Db and sends through the Nostr client.
--
-- What comes from outside is an argument: clocks, random bytes and UUIDs, the state of `tokio`
-- channels, the `hex` and `subtle` crates. A `HashMap` is iterated in the order of its list, and
-- the theorems hold for every such order. Times are natural numbers: nanoseconds in
-- Limits and Dispatch, seconds in Db, Reset, ClientManager and Spool, minutes in Diagnostics.
--
-- Amounts in token buckets are exact (a token is 60 * 10^9 units) where the source has `f64`; its
-- rounding is not modelled. The only loop on fuel is the eviction of oldest entries, with as many
-- rounds as there are entries: each round removes one.
--
-- For the dispatcher a database call succeeds or fails as an argument says; in Reset a run has a
-- number of effects that work, and the next fails: a theorem for every number covers a crash at
-- any point, and 16 effects are enough for a reset (the mark, five for the directory, two for
-- each of four files, the marker, the pruning). In Db an operation is a transaction whose errors
-- are those of the constraints. The Nostr client is a function from a message to its answer, and
-- the dispatcher logs what it asks. In MlsGroups each awaited step comes back in time or is cut off by
-- the overall timeout, done or not, and a call of the MLS library gives a value, refuses or panics;
-- what the theorems use of its members is a record of laws (Mls/Joining), which Mls/Sample fills.
--
-- Not modelled: attachments, profiles, the reactions to direct messages, what the dispatcher sends
-- to handlers but for the notices of a registration, the engine's commands on key packages and
-- welcomes, the MLS library, the Nostr client but for the fetch of key packages and the sending to
-- groups, the transports, and the command line but for the overwriting of files. Opening a store
-- is taken not to change its files before the engine runs. Locks are not modelled: each method of
-- the dispatcher runs as one step, except that a dispatch waits between its two, and an invitation
-- between its reservation and its end (MlsGroups/Racing).
pub mod Prelude
pub mod Nostr
pub mod Errors
pub mod Protocol
pub mod Events
pub mod Config
pub mod Handlers
pub mod Limits
pub mod Reset
pub mod ClientManager
pub mod Mls
pub mod Dispatch
pub mod Db
pub mod MlsGroups
pub mod Diagnostics
pub mod Spool
pub mod Scaffold

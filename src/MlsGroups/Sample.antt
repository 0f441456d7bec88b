-- ===== src/MlsGroups/Sample.antt =====
-- A small daemon with one bot in one group, to try the theorems on.
use pacto_bot_api.Prelude.{Bool, true, false, none, some, [], ◌∷◌, inr, string_eq}
use pacto_bot_api.Nostr.{Event}
use pacto_bot_api.Errors.{ok, err, nostr}
use pacto_bot_api.Handlers.{empty}
use pacto_bot_api.Handlers.Tests.{echo_config}
use pacto_bot_api.Limits.{default_limiter, new_cache}
use pacto_bot_api.Db.Tables.{Tables}
use pacto_bot_api.Dispatch.{Dispatch, Bot}
use pacto_bot_api.Mls.Sample.{Engine, sample, event_of}
use pacto_bot_api.MlsGroups.State.{World, Service, Env, in_time}

abbrev pub echo_bot : Bot
echo_bot = record { config = echo_config; mls_unavailable_reason = none }

abbrev pub core : Dispatch
core = record {
  bots = ("echo", echo_bot) ∷ [];
  registry = empty;
  tables = record { handlers = []; cursors = []; groups = []; traces = [] };
  metrics = record {
    events_received_total = 0;
    handler_responses_total = 0;
    rate_limited_total = 0;
    group_messages_rate_limited_total = 0;
    handlers_registered = 0;
  };
  limiter = default_limiter 0;
  dedup = new_cache 1000;
  pending = [];
  handlers_registered = 0;
  last_cursor = [];
  sent = [];
}

abbrev pub engine_of : Bool → Engine
engine_of is_last_admin = record {
  members = "bot" ∷ "ann" ∷ [];
  staged = none;
  is_last_admin = is_last_admin;
}

abbrev pub tables : Tables
tables = record {
  cursors = [];
  groups =
      (
        ("echo", "squad"),
        record { wire_id = "wire"; creator_npub = "npub1echo"; relay = ""; state_lost_at = none },
      )
      ∷ [];
  members = [];
  resets = [];
  reset_admins = [];
}

abbrev pub world_of : Bool → World Engine
world_of is_last_admin = record {
  tables = tables;
  engines = ("echo", engine_of is_last_admin) ∷ [];
  relayed = [];
}

abbrev pub service : Service Engine
service = record { core = core; world = world_of false }

-- A key package of Bob's, 100 seconds old.
abbrev pub package_of_bob : Event
package_of_bob = record (event_of "package") { pubkey = "bob"; kind = 443; created_at = 900 }

-- Everything works and comes back in time; keys stand for themselves.
abbrev pub env : Env Engine
env = record {
  mdk = sample;
  verify = λ _. true;
  parse_public_key = λ s. inr s;
  to_bech32 = λ s. inr s;
  parse_relay_url = λ s. some s;
  public_key = λ _. "bot";
  parse_event_id = λ s. inr s;
  event_tag = λ s. "e" ∷ s ∷ [];
  event_id = λ u. u.content;
  sign_event = λ bot_id u. inr bot_id;
  parse_signature = λ s. inr s;
  graphemes = λ _. 1;
  envelope = λ content bucket. content;
  hex_error = λ _. none;
  display_mls = λ _. "";
  display = λ _. "";
  fetch_events = λ _. ok (package_of_bob ∷ []);
  now = 1000;
  send = λ _. ok "id";
  load_mls_group = none;
  is_bot_invited = none;
  update_mls_group_invite = none;
  insert_mls_group = none;
  delete_mls_group_member = none;
  load_state_lost_at = none;
  delete_mls_group = none;
  fetch_pace = in_time;
  engine_pace = in_time;
  member_pace = in_time;
  send_pace = λ _. in_time;
  insert_pace = in_time;
}

-- The same daemon while the relays refuse.
abbrev pub cut_off : Env Engine
cut_off = record env { fetch_events = λ _. err (nostr "no relay") }

-- ===== src/ClientManager/Tests.antt =====
-- A bot whose store was reset: the engine knows one group under a new name, not the other.
use pacto_bot_api.Prelude.{
  true, subst, ◌≡◌, String, none, some, List, [], ◌∷◌, string_eq, pair_eq, refl,
}
use pacto_bot_api.Prelude.Dict.{get, insert, remove}
use pacto_bot_api.Errors.{Result, ok}
use pacto_bot_api.Db.Tables.{GroupRow, Tables}
use pacto_bot_api.Db.Groups.{
  upsert_mls_group_from_reconciliation, find_wire, rename_group, rename_row, members_collide,
  rename_members, set_state_lost, insert_mls_group, insert_row, add_members,
}
use pacto_bot_api.Db.Keys.{IsKeyed, ok_injective}
use pacto_bot_api.Db.Runs.{Call, inserts, step, run, run-IsKeyed}
use pacto_bot_api.ClientManager.Reconcile.{
  GroupInfo, has_wire, npubs_of, load_all_mls_groups, upsert_groups, mark_missing, mark_after,
  reconcile_mls_groups,
}
use pacto_bot_api.ClientManager.Reconciled.{Reconciled, reconcile_mls_groups-Reconciled}
use pacto_bot_api.Reset.Io.{World, Ends}
use pacto_bot_api.Reset.Moves.{Moment}
use pacto_bot_api.Reset.Classify.{Libraries, opened}
use pacto_bot_api.Reset.Completing.{Nothing}
use pacto_bot_api.ClientManager.Loops.{AreApart}
use pacto_bot_api.ClientManager.Starting.{Engine, construct_mls_bot_state}
use pacto_bot_api.ClientManager.Started.{Started, construct_mls_bot_state-Started}

abbrev row : String → GroupRow
row wire = record { wire_id = wire; creator_npub = "npub1"; relay = ""; state_lost_at = none }

abbrev start : Tables
start = record {
  cursors = [];
  groups = [];
  members = [];
  resets = ("bot", record { marked_at = 1; reset_at = some 2; archive_path = none }) ∷ [];
  reset_admins = [];
}

start-IsKeyed : IsKeyed start
unfolding get
start-IsKeyed = record {
  names = tt;
  rows = tt;
  wires = λ b n n' r r' h h' same. cc;
  owned = λ k m h gone. cc;
}

abbrev calls : List Call
calls = inserts ("bot", "one") (row "a") [] ∷ inserts ("bot", "two") (row "b") [] ∷ []

abbrev rows : Tables
rows = run start calls

abbrev engine_groups : List GroupInfo
engine_groups = record { wire_id = "a"; name = "uno"; members = "pk" ∷ [] } ∷ []

abbrev to_bech32 : String → Result String
to_bech32 pk = ok pk

reconcile_mls_groups-Reconciled_example :
    Reconciled "bot" 9 engine_groups rows
      (reconcile_mls_groups to_bech32 9 "bot" "npub1" (ok engine_groups) rows).0
unfolding has_wire reconcile_mls_groups upsert_groups npubs_of upsert_mls_group_from_reconciliation
    find_wire rename_group rename_row members_collide rename_members mark_after load_all_mls_groups
    mark_missing set_state_lost get insert remove run step insert_mls_group insert_row add_members
reconcile_mls_groups-Reconciled_example =
    reconcile_mls_groups-Reconciled to_bech32 9 "bot" "npub1" engine_groups rows (refl, tt)
      (run-IsKeyed start calls start-IsKeyed) refl

abbrev libraries : Libraries
libraries = record {
  is_database_encrypted = λ _. some true;
  max_version = λ _. none;
  new_with_key = λ _ _. opened;
  legacy_groups = λ _. none;
  admins_from_json = λ _. none;
  npub_from_hex = λ _. none;
  archive_path = λ name. name.1.0;
  wal_checkpoint = λ _ live. some live;
}

abbrev mdk : Engine
mdk = record { open_store = λ _ live. some live; list_groups = λ _. ok engine_groups }

abbrev moment : Moment
moment = record { marked_at = 5; archived_at = 6; reset_at = 7; pruned_at = 8; suffix = "ab" }

-- The store has no key beside it.
abbrev keyless : World
keyless = record {
  db = rows;
  disk = record {
    live = ("s.db", record { bytes = 1 ∷ []; mode = 384; readable = true }) ∷ [];
    archives = [];
  };
}

engine_groups-AreApart : (gs : List GroupInfo) → ok engine_groups ≡ ok gs → AreApart gs
unfolding has_wire
engine_groups-AreApart gs h = subst AreApart (ok_injective engine_groups gs h) (refl, tt)

construct_mls_bot_state-Started_example : Ends (Started mdk "bot" 9 rows) Nothing (
    construct_mls_bot_state libraries mdk to_bech32
      (λ _. true)
      moment
      9
      "bot"
      "npub1"
      "s.db"
      0
      keyless
      20)
construct_mls_bot_state-Started_example =
    construct_mls_bot_state-Started libraries mdk to_bech32 (λ _. true) moment 9 "bot" "npub1"
      "s.db" 0 keyless 20 (λ live gs h. engine_groups-AreApart gs h)
      (run-IsKeyed start calls start-IsKeyed)

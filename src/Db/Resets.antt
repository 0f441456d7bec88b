-- ===== src/Db/Resets.antt =====
-- The markers of store resets and the harvested administrators in src/db.rs.
use pacto_bot_api.Prelude.{ℕ, String, Option, none, some, string_eq, pair_eq}
use pacto_bot_api.Prelude.Dict.{get, insert}
use pacto_bot_api.Db.Tables.{ResetMarker, Tables}

-- `Database::mark_mls_store_reset_start`
unfoldable pub mark_mls_store_reset_start : String → ℕ → Tables → Tables
mark_mls_store_reset_start bot_id marked_at t = record t {
  resets =
      insert bot_id (record { marked_at = marked_at; reset_at = none; archive_path = none })
        t.resets;
}

-- `Database::complete_mls_store_reset`
unfoldable pub complete_mls_store_reset : String → ℕ → Option String → Tables → Tables
complete_mls_store_reset bot_id reset_at archive_path t = elim (get bot_id t.resets) [
  | none ↦ t
  | some m ↦ record t {
    resets =
        insert bot_id (record m { reset_at = some reset_at; archive_path = archive_path }) t.resets;
  }
]

-- `Database::load_mls_store_reset_marker`
abbrev pub load_mls_store_reset_marker : String → Tables → Option ResetMarker
load_mls_store_reset_marker bot_id t = get bot_id t.resets

-- `Database::upsert_mls_store_reset_admin`
unfoldable pub upsert_mls_store_reset_admin : String → String → String → Tables → Tables
upsert_mls_store_reset_admin bot_id wire_id admin_npub t = record t {
  reset_admins = insert ((bot_id, wire_id), admin_npub) tt t.reset_admins;
}

-- ===== src/Db/Tables.antt =====
-- The tables of src/db.rs, each as a dictionary by its primary key, and the table of cursors.
use pacto_bot_api.Prelude.{ℕ, String, Bool, true, Option, none, some, string_eq, ◌==◌}
use pacto_bot_api.Prelude.Dict.{Dict, get, insert, remove}

-- A primary key `(bot_id, group_name)`, and one with a third column.
abbrev pub GroupKey : Type 0
GroupKey = String × String

-- The other columns of `mls_groups`; `invited_bots` is written there and read from the members.
pub record GroupRow : Type 0 where
  pub wire_id : String
  pub creator_npub : String
  pub relay : String
  pub state_lost_at : Option ℕ

-- `MlsStoreResetMarker`
pub record ResetMarker : Type 0 where
  pub marked_at : ℕ
  pub reset_at : Option ℕ
  pub archive_path : Option String

-- `UNIQUE (bot_id, wire_id)` of `mls_groups` and the keys of the dictionaries are the constraints.
-- A cursor has the bot's npub and the last event's time, never negative.
pub record Tables : Type 0 where
  pub cursors : Dict String (String × Option ℕ)
  pub groups : Dict GroupKey GroupRow
  pub members : Dict (GroupKey × String) (Unit {0})
  pub resets : Dict String ResetMarker
  pub reset_admins : Dict (GroupKey × String) (Unit {0})

-- `Database::save_cursor`
unfoldable pub save_cursor : String → String → ℕ → Tables → Tables
save_cursor bot_id npub cursor t = record t {
  cursors = insert bot_id (npub, some cursor) t.cursors;
}

abbrev position : Option (String × Option ℕ) → Option (String × ℕ)
position none = none
position (some (npub, none)) = some (npub, 0)
position (some (npub, some cursor)) = some (npub, cursor)

-- `Database::load_cursor`
unfoldable pub load_cursor : String → Tables → Option (String × ℕ)
load_cursor bot_id t = position (get bot_id t.cursors)

abbrev same_npub : String → Option (String × Option ℕ) → Bool
same_npub npub none = true
same_npub npub (some (stored, _)) = stored == npub

-- `Database::validate_npub`
unfoldable pub validate_npub : String → String → Tables → Bool
validate_npub bot_id npub t = same_npub npub (get bot_id t.cursors)

-- `Database::reset_cursor`
unfoldable pub reset_cursor : String → Tables → Tables
reset_cursor bot_id t = record t { cursors = remove bot_id t.cursors }

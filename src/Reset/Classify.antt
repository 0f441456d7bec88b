-- ===== src/Reset/Classify.antt =====
-- `classify_and_prepare` of src/mls_reset.rs and the two resets.
use pacto_bot_api.Prelude.{
  ℕ, String, Bool, true, false, Option, none, some, List, [], ◌∷◌, if◌then◌else◌, leb,
}
use pacto_bot_api.Prelude.Dict.{Dict, get}
use pacto_bot_api.Prelude.{string_eq}
use pacto_bot_api.Db.Resets.{
  mark_mls_store_reset_start, complete_mls_store_reset, upsert_mls_store_reset_admin,
}
use pacto_bot_api.Reset.Io.{
  File, ArchiveName, Io, ◌>>=◌, ◌>>◌, answer, fail, look, effect, on_disk, on_db, ok_or_fail,
}
use pacto_bot_api.Reset.StoreKey.{Loaded, absent, loaded, unusable, load}
use pacto_bot_api.Reset.Moves.{
  Moment, sidecar_paths, any_exists, remove_or_archive, finish_sidecar_cleanup,
  prune_expired_archives,
}

-- What opening a store with a key gives.
pub data Opened : Type 0 where
  opened wrong_key other : Opened

-- The libraries that read a store, and the text of a directory's path: the encryption test and the
-- opening of `mdk_sqlite_storage`, the queries that SQLite runs on an unencrypted store, and the
-- readers of a legacy group's columns. Of these only the checkpoint is taken to write to files.
pub record Libraries : Type 0 where
  pub is_database_encrypted : File → Option Bool
  pub max_version : File → Option (Option ℕ)
  pub new_with_key : File → List ℕ → Opened
  pub legacy_groups : File → Option (List (String × String))
  pub admins_from_json : String → Option (List String)
  pub npub_from_hex : String → Option String
  pub archive_path : ArchiveName → String
  pub wal_checkpoint : String → Dict String File → Option (Dict String File)

abbrev pub db_failure : String
db_failure = "MLS store: agent database error"

abbrev pub unreadable : String
unreadable = "MLS store: unreadable (fail-closed)"

module _ (libraries : Libraries) where
  abbrev pub npubs_of : List String → Option (List String)
  npubs_of [] = some []
  npubs_of (hex ∷ hexes) = elim (libraries.npub_from_hex hex) [
    | none ↦ none
    | some npub ↦ elim (npubs_of hexes) [ none ↦ none | some npubs ↦ some (npub ∷ npubs) ]
  ]

  -- The rows of the legacy groups: the wire id and the administrators of each.
  unfoldable pub harvest_rows : List (String × String) → Io (List (String × List String))
  harvest_rows [] = answer []
  harvest_rows ((wire_id, admins_json) ∷ rows) = do
    hexes ←
        ok_or_fail (libraries.admins_from_json admins_json) "MLS store: malformed legacy admin set"
    npubs ← ok_or_fail (npubs_of hexes) "MLS store: malformed legacy admin pubkey"
    rest ← harvest_rows rows
    answer ((wire_id, npubs) ∷ rest)

  -- `harvest_legacy_admins`
  unfoldable pub harvest_legacy_admins : File → Io (List (String × List String))
  unfolding harvest_rows
  harvest_legacy_admins store = do
    rows ← ok_or_fail (libraries.legacy_groups store) unreadable
    harvest_rows rows

  -- `checkpoint_wal`
  unfoldable pub checkpoint_wal : String → Io (Unit {0})
  checkpoint_wal store_path = do
    folded ← look (λ w. libraries.wal_checkpoint store_path w.disk.live)
    live ← ok_or_fail folded unreadable
    effect unreadable (on_disk (λ d. record d { live = live }))

  unfoldable pub save_admins : String → String → List String → Io (Unit {0})
  unfolding upsert_mls_store_reset_admin
  save_admins bot_id wire_id [] = answer tt
  save_admins bot_id wire_id (npub ∷ npubs) = do
    effect db_failure (on_db (upsert_mls_store_reset_admin bot_id wire_id npub))
    save_admins bot_id wire_id npubs

  unfoldable pub save_harvest : String → List (String × List String) → Io (Unit {0})
  unfolding save_admins
  save_harvest bot_id [] = answer tt
  save_harvest bot_id ((wire_id, npubs) ∷ rest) = do
    save_admins bot_id wire_id npubs
    save_harvest bot_id rest

  abbrev pub path_of : Option ArchiveName → Option String
  path_of none = none
  path_of (some name) = some (libraries.archive_path name)

  -- The last two steps of either reset.
  unfoldable pub move_and_complete :
      Moment → String → String → List String → ℕ → String → Io (Unit {0})
  unfolding remove_or_archive complete_mls_store_reset
  move_and_complete at bot_id store_path sidecars retention_days kind = do
    archived ← remove_or_archive at store_path sidecars retention_days kind
    effect db_failure (on_db (complete_mls_store_reset bot_id at.reset_at (path_of archived)))

  -- `reset_legacy_store`
  unfoldable pub reset_legacy_store :
      Moment → String → String → File → List String → ℕ → Io (Unit {0})
  unfolding harvest_legacy_admins checkpoint_wal mark_mls_store_reset_start save_harvest
      move_and_complete
  reset_legacy_store at bot_id store_path store sidecars archive_retention_days = do
    harvested ← harvest_legacy_admins store
    checkpoint_wal store_path
    effect db_failure (on_db (mark_mls_store_reset_start bot_id at.marked_at))
    save_harvest bot_id harvested
    move_and_complete at bot_id store_path sidecars archive_retention_days "legacy"

  -- `reset_encrypted_store`
  unfoldable pub reset_encrypted_store : Moment → String → String → List String → Io (Unit {0})
  unfolding mark_mls_store_reset_start move_and_complete
  reset_encrypted_store at bot_id store_path sidecars = do
    effect db_failure (on_db (mark_mls_store_reset_start bot_id at.marked_at))
    move_and_complete at bot_id store_path sidecars 0 "r26"

  module _ (removable : ArchiveName → Bool) (at : Moment) (bot_id store_path : String)
      (archive_retention_days : ℕ) where
    -- Pruning, then the answer.
    unfoldable pub prune_and_answer : Bool → Io Bool
    unfolding prune_expired_archives
    prune_and_answer reset_occurred = do
      prune_expired_archives at removable archive_retention_days
      answer reset_occurred

    -- There is no file at the store's path.
    unfoldable pub prepare_absent : Io Bool
    unfolding any_exists finish_sidecar_cleanup prune_and_answer
    prepare_absent = do
      leftover ← look (λ w. any_exists (sidecar_paths store_path) w.disk.live)
      (if leftover
          then finish_sidecar_cleanup at (sidecar_paths store_path) archive_retention_days
          else answer tt)
      prune_and_answer false

    unfoldable pub prepare_legacy : File → Io Bool
    unfolding reset_legacy_store prune_and_answer
    prepare_legacy store = elim (libraries.max_version store) [
      | none ↦ fail unreadable
      | some none ↦ fail "MLS store: unrecognised unencrypted schema (fail-closed)"
      | some (some version) ↦
          if leb 100 version
          then (do
            reset_legacy_store at bot_id store_path store (sidecar_paths store_path)
                archive_retention_days
            prune_and_answer true)
          else fail "MLS store: unrecognised unencrypted schema (fail-closed)"
    ]

    unfoldable pub reset_and_answer : Io Bool
    unfolding reset_encrypted_store prune_and_answer
    reset_and_answer = do
      reset_encrypted_store at bot_id store_path (sidecar_paths store_path)
      prune_and_answer true

    abbrev pub after_opening : Opened → Io Bool
    after_opening opened = prune_and_answer false
    after_opening wrong_key = reset_and_answer
    after_opening other = fail "MLS store: open failed (fail-closed)"

    abbrev pub after_loading : File → Loaded → Io Bool
    after_loading store absent = reset_and_answer
    after_loading store (loaded key) = after_opening (libraries.new_with_key store key)
    after_loading store (unusable e) = fail "MLS store: key unusable (fail-closed)"

    unfoldable pub prepare_encrypted : File → Io Bool
    unfolding load prune_and_answer reset_and_answer
    prepare_encrypted store = do
      key ← look (λ w. load store_path w.disk.live)
      after_loading store key

    unfoldable pub prepare_store : File → Io Bool
    unfolding prepare_legacy prepare_encrypted
    prepare_store store = elim (libraries.is_database_encrypted store) [
      | none ↦ fail unreadable
      | some false ↦ prepare_legacy store
      | some true ↦ prepare_encrypted store
    ]

    -- `classify_and_prepare`, under the bot's lock.
    unfoldable pub classify_and_prepare : Io Bool
    unfolding prepare_absent prepare_store
    classify_and_prepare = do
      found ← look (λ w. get store_path w.disk.live)
      elim found [ none ↦ prepare_absent | some store ↦ prepare_store store ]

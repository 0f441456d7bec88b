-- ===== src/Reset/Tests.antt =====
-- An encrypted store without its key, the world in which its reset stops, and the next start.
use pacto_bot_api.Prelude.{
  arith, inl, ℕ, Bool, true, none, some, [], ◌∷◌, string_eq, pair_eq, nat_eq, ◌≡◌, refl, keep,
}
use pacto_bot_api.Prelude.Dict.{get, insert, remove}
use pacto_bot_api.Errors.{engine}
use pacto_bot_api.Db.Tables.{Tables}
use pacto_bot_api.Db.Resets.{mark_mls_store_reset_start}
use pacto_bot_api.Reset.Io.{File, ArchiveName, World, stopped, Ends}
use pacto_bot_api.Reset.StoreKey.{load, load_at}
use pacto_bot_api.Reset.Moves.{
  Moment, chmod, rename_into, archive_files, new_archive_dir, present, move_away, remove_or_archive,
  sidecar_paths,
}
use pacto_bot_api.Reset.Classify.{
  Libraries, opened, move_and_complete, reset_encrypted_store, reset_and_answer, prepare_encrypted,
  prepare_store, classify_and_prepare,
}
use pacto_bot_api.Reset.Kept.{IsSafe}
use pacto_bot_api.Reset.Stores.{encrypted_store_is_kept}
use pacto_bot_api.Reset.Completing.{Nothing}
use pacto_bot_api.Reset.Ready.{IsPrepared, answer_is_ready}
use pacto_bot_api.Reset.Finishing.{Finishes}
use pacto_bot_api.Reset.Finished.{ResetDone, lacking_store_is_reset}
use pacto_bot_api.Reset.Missing.{NotReset, missing_store_marks_nothing}

abbrev libraries : Libraries
libraries = record {
  is_database_encrypted = λ _. some true;
  max_version = λ _. none;
  new_with_key = λ _ _. opened;
  legacy_groups = λ _. none;
  admins_from_json = λ _. none;
  npub_from_hex = λ _. none;
  archive_path = λ name. name.1.0;
  wal_checkpoint = λ _ live. some live;
}

abbrev removable : ArchiveName → Bool
removable _ = true

abbrev now : Moment
now = record { marked_at = 100; archived_at = 101; reset_at = 102; pruned_at = 103; suffix = "ab" }

abbrev later : Moment
later = record {
  marked_at = 200;
  archived_at = 201;
  reset_at = 202;
  pruned_at = 203;
  suffix = "cd";
}

abbrev file : ℕ → File
file byte = record { bytes = byte ∷ []; mode = 384; readable = true }

abbrev no_rows : Tables
no_rows = record { cursors = []; groups = []; members = []; resets = []; reset_admins = [] }

abbrev start : World
start = record {
  db = no_rows;
  disk = record { live = ("s.db", file 1) ∷ ("s.db-wal", file 2) ∷ []; archives = [] };
}

-- The store is in its archive, its log is not, and the marker is open.
abbrev crashed : World
crashed = record {
  db = record no_rows {
    resets = ("bot", record { marked_at = 100; reset_at = none; archive_path = none }) ∷ [];
  };
  disk = record {
    live = ("s.db-wal", file 2) ∷ [];
    archives = ((101, ("ab", "r26")), ("s.db", file 1) ∷ []) ∷ [];
  };
}

crash_in_between :
    classify_and_prepare libraries removable now "bot" "s.db" 0 start 8
    ≡ stopped (engine "MLS store filesystem error") crashed
unfolding classify_and_prepare prepare_store prepare_encrypted load load_at reset_and_answer
    reset_encrypted_store mark_mls_store_reset_start move_and_complete remove_or_archive present
    move_away new_archive_dir archive_files chmod rename_into sidecar_paths get insert remove keep
crash_in_between = refl

encrypted_store_is_kept_example :
    Ends
      (λ _ w. IsSafe "s.db-wal" (2 ∷ []) w)
      (IsSafe "s.db-wal" (2 ∷ []))
      (classify_and_prepare libraries removable now "bot" "s.db" 0 start 12)
unfolding get
encrypted_store_is_kept_example =
    encrypted_store_is_kept "s.db-wal" (2 ∷ []) libraries removable now "bot" "s.db" 0 (file 1)
      start 12 refl refl tt (file 2, refl, refl)

answer_is_ready_example :
    Ends
      (IsPrepared libraries removable now "bot" "s.db" 0 start)
      Nothing
      (classify_and_prepare libraries removable now "bot" "s.db" 0 start 40)
answer_is_ready_example = answer_is_ready libraries removable now "bot" "s.db" 0 start 40

lacking_store_is_reset_example :
    Finishes
      (ResetDone libraries removable now "bot" "s.db" 30)
      16
      20
      (classify_and_prepare libraries removable now "bot" "s.db" 30 start 20)
unfolding get load load_at
lacking_store_is_reset_example =
    lacking_store_is_reset libraries removable now "bot" "s.db" 30 (file 1) start 20 refl refl
      (inl refl) (omega arith)

missing_store_marks_nothing_example :
    Ends
      (NotReset libraries removable later "bot" "s.db" 0 crashed)
      (λ w. w.db ≡ crashed.db)
      (classify_and_prepare libraries removable later "bot" "s.db" 0 crashed 40)
unfolding get
missing_store_marks_nothing_example =
    missing_store_marks_nothing libraries removable later "bot" "s.db" 0 crashed 40 refl

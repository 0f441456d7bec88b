-- ===== src/Reset/Stores.antt =====
-- The whole of `classify_and_prepare` of src/mls_reset.rs on an encrypted store.
use pacto_bot_api.Prelude.{
  ℕ, String, Bool, true, false, Option, some, List, ◌∷◌, string_eq, pair_eq, nat_eq, ◌≡◌, ap,
  Bool-cases, inl, inr,
}
use pacto_bot_api.Prelude.Dict.{get, Distinct}
use pacto_bot_api.Db.Tables.{Tables}
use pacto_bot_api.Db.Resets.{mark_mls_store_reset_start}
use pacto_bot_api.Reset.Io.{
  File, ArchiveName, World, answer, effect, on_db, Ends, resume-Ends, effect-Ends,
}
use pacto_bot_api.Reset.StoreKey.{Loaded, absent, loaded, unusable, load}
use pacto_bot_api.Reset.Moves.{
  Moment, sidecar_paths, any_exists, present, new_archive_dir, archive_files, move_away,
  check_clear, remove_or_archive, prune_expired_archives,
}
use pacto_bot_api.Reset.Classify.{
  Libraries, Opened, opened, wrong_key, other, db_failure, prune_and_answer, move_and_complete,
  reset_encrypted_store, reset_and_answer, after_opening, after_loading, prepare_encrypted,
  prepare_store, classify_and_prepare,
}
use pacto_bot_api.Reset.Upkeep.{Keeps, Keeps-then, archive_files-Keeps, new_archive_dir-Ends, named}
use pacto_bot_api.Reset.Kept.{
  IsSafe, IsLive, chmod-IsSafe, rename-IsSafe, with_dir-IsSafe, prune-IsSafe,
}

module _ (path : String) (bytes : List ℕ) where
  abbrev Safe : World → Type 0
  Safe = IsSafe path bytes

  check_clear-Keeps : (ps : List String) → Keeps Safe (check_clear ps)
  unfolding check_clear
  check_clear-Keeps ps w n s = elim (Bool-cases (any_exists ps w.disk.live)) [
    | inl e ↦ rw (e, check_clear) s
    | inr e ↦ rw (e, check_clear) s
  ]

  move_away-Keeps :
      (at : Moment) (existing : List String) → Keeps Safe (move_away at true "r26" existing)
  unfolding move_away
  move_away-Keeps at existing w n s =
      resume-Ends (λ name w'. Safe w' × (name ≡ named at "r26")) (λ _ w'. Safe w') Safe
        (new_archive_dir at "r26" w n) _
        (new_archive_dir-Ends Safe at "r26" (with_dir-IsSafe path bytes (named at "r26")) w n s)
        (λ name w' n' s'.
          Keeps-then Safe (archive_files name existing) _
            (archive_files-Keeps Safe (chmod-IsSafe path bytes) name
              (rename-IsSafe path bytes name (ap (λ k. k.1.1) s'.1)) existing)
            (λ _ w'' n'' s''. s'') w' n' s'.0)

  remove_or_archive-Keeps :
      (at : Moment) (store_path : String) (sidecars : List String)
      → Keeps Safe (remove_or_archive at store_path sidecars 0 "r26")
  unfolding remove_or_archive present
  remove_or_archive-Keeps at store_path sidecars w n s =
      Keeps-then Safe (move_away at true "r26" _) _ (move_away-Keeps at _)
        (λ archived.
          Keeps-then Safe {B = Option ArchiveName} (check_clear (store_path ∷ sidecars))
            (λ _. answer archived) (check_clear-Keeps (store_path ∷ sidecars)) (λ _ w' n' s'. s'))
        w n s

  on_db-Keeps : (failure : String) (g : Tables → Tables) → Keeps Safe (effect failure (on_db g))
  on_db-Keeps failure g w n s = effect-Ends failure (on_db g) (λ _ w'. Safe w') Safe w n s s

  module _ (libraries : Libraries) (removable : ArchiveName → Bool) (at : Moment)
      (bot_id store_path : String) (days : ℕ) where
    prune_and_answer-Keeps :
        (b : Bool) → Keeps Safe (prune_and_answer libraries removable at bot_id store_path days b)
    unfolding prune_and_answer
    prune_and_answer-Keeps b =
        Keeps-then Safe (prune_expired_archives at removable days) _
          (prune-IsSafe path bytes at removable days) (λ _ w n s. s)

    reset_and_answer-Keeps :
        Keeps Safe (reset_and_answer libraries removable at bot_id store_path days)
    unfolding reset_and_answer reset_encrypted_store move_and_complete
    reset_and_answer-Keeps =
        Keeps-then Safe
          (reset_encrypted_store libraries at bot_id store_path (sidecar_paths store_path)) _
          (Keeps-then Safe
            (effect db_failure (on_db (mark_mls_store_reset_start bot_id at.marked_at))) _
            (on_db-Keeps db_failure _)
            (λ _.
              Keeps-then Safe (remove_or_archive at store_path (sidecar_paths store_path) 0 "r26") _
                (remove_or_archive-Keeps at store_path (sidecar_paths store_path))
                (λ archived. on_db-Keeps db_failure _)))
          (λ _. prune_and_answer-Keeps true)

    after_opening-Keeps :
        (o : Opened) → Keeps Safe (after_opening libraries removable at bot_id store_path days o)
    after_opening-Keeps opened w n s = prune_and_answer-Keeps false w n s
    after_opening-Keeps wrong_key w n s = reset_and_answer-Keeps w n s
    after_opening-Keeps other w n s = s

    after_loading-Keeps :
        (store : File) (key : Loaded)
        → Keeps Safe (after_loading libraries removable at bot_id store_path days store key)
    after_loading-Keeps store absent w n s = reset_and_answer-Keeps w n s
    after_loading-Keeps store (loaded key) w n s =
        after_opening-Keeps (libraries.new_with_key store key) w n s
    after_loading-Keeps store (unusable e) w n s = s

    -- Wherever the preparation of an encrypted store stops, by an error or a crash at any effect,
    -- and however it ends, where no two archive directories have one name: a file that stood beside
    -- the store is still there with its contents, or it is gone from there and stands with its
    -- contents in an archive of the kind that is never pruned; the retention, the pruning and what
    -- the key opens do not matter.
    pub encrypted_store_is_kept :
        (store : File) (w : World) (n : ℕ)
        → get store_path w.disk.live ≡ some store
        → libraries.is_database_encrypted store ≡ some true
        → Distinct w.disk.archives
        → IsLive path bytes w
        → Ends
            (λ _ w'. Safe w')
            Safe
            (classify_and_prepare libraries removable at bot_id store_path days w n)
    unfolding classify_and_prepare prepare_store prepare_encrypted
    encrypted_store_is_kept store w n here encrypted d live =
        rw (here, encrypted, classify_and_prepare, prepare_store, prepare_encrypted)
          (after_loading-Keeps store (load store_path w.disk.live) w n (d, inl live))

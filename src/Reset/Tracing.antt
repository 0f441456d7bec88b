-- ===== src/Reset/Tracing.antt =====
-- A property of `agent.db` that the three writes of a reset keep outlives all of
-- `classify_and_prepare` in src/mls_reset.rs, wherever it stops.
use pacto_bot_api.Prelude.{
  ℕ, String, Bool, true, false, Option, none, some, List, [], ◌∷◌, string_eq, pair_eq, nat_eq, ◌≡◌,
  refl, if◌then◌else◌, leb, nat_beq, Bool-cases, Option-cases, inl, inr,
}
use pacto_bot_api.Prelude.Dict.{get}
use pacto_bot_api.Db.Tables.{Tables}
use pacto_bot_api.Db.Resets.{
  mark_mls_store_reset_start, complete_mls_store_reset, upsert_mls_store_reset_admin,
}
use pacto_bot_api.Reset.Io.{
  File, ArchiveName, World, Outcome, answer, effect, ok_or_fail, on_db, on_disk, Ends, effect-Ends,
}
use pacto_bot_api.Reset.StoreKey.{Loaded, absent, loaded, unusable, load}
use pacto_bot_api.Reset.Moves.{
  Moment, sidecar_paths, any_exists, remove_or_archive, finish_sidecar_cleanup,
  prune_expired_archives, pruned, io_failure,
}
use pacto_bot_api.Reset.Classify.{
  Libraries, Opened, opened, wrong_key, other, db_failure, unreadable, npubs_of, harvest_rows,
  harvest_legacy_admins, checkpoint_wal, save_admins, save_harvest, prune_and_answer,
  move_and_complete, reset_legacy_store, reset_encrypted_store, reset_and_answer, after_opening,
  after_loading, prepare_absent, prepare_legacy, prepare_encrypted, prepare_store,
  classify_and_prepare, path_of,
}
use pacto_bot_api.Reset.Upkeep.{Keeps, Keeps-then}
use pacto_bot_api.Reset.Upholding.{InDb, remove_or_archive-Ends, finish_sidecar_cleanup-InDb}

ok_or_fail-Keeps :
    (P : World → Type 0) {A : Type 0} (o : Option A) (message : String)
    → Keeps P (ok_or_fail o message)
ok_or_fail-Keeps P none message w n p = p
ok_or_fail-Keeps P (some a) message w n p = p

drop-Ends :
    {A : Type 0} (P : World → Type 0) (R : World → Type 0) (o : Outcome A)
    → Ends (λ _ w. P w × R w) P o
    → Ends (λ _ w. P w) P o
drop-Ends P R (Outcome.done a w n) h = h.0
drop-Ends P R (Outcome.stopped e w) h = h

module _ (D : Tables → Type 0) (bot_id : String)
    (by_mark : (at : ℕ) (t : Tables) → D t → D (mark_mls_store_reset_start bot_id at t))
    (by_complete : (at : ℕ) (path : Option String) (t : Tables)
      → D t
      → D (complete_mls_store_reset bot_id at path t))
    (by_admin : (wire_id npub : String) (t : Tables)
      → D t
      → D (upsert_mls_store_reset_admin bot_id wire_id npub t))
    (libraries : Libraries) (at : Moment) (store_path : String) where
  abbrev Holds : World → Type 0
  Holds = InDb D

  on_db-Holds :
      (failure : String) (f : Tables → Tables)
      → ((t : Tables) → D t → D (f t))
      → Keeps Holds (effect failure (on_db f))
  on_db-Holds failure f keeps w n p =
      effect-Ends failure (on_db f) (λ _ w'. Holds w') Holds w n p (keeps w.db p)

  harvest_rows-Holds : (rows : List (String × String)) → Keeps Holds (harvest_rows libraries rows)
  unfolding harvest_rows
  harvest_rows-Holds [] w n p = p
  harvest_rows-Holds ((wire_id, admins) ∷ rows) w n p =
      Keeps-then Holds (ok_or_fail (libraries.admins_from_json admins) _) _
        (ok_or_fail-Keeps Holds (libraries.admins_from_json admins) _)
        (λ hexes.
          Keeps-then Holds (ok_or_fail (npubs_of libraries hexes) _) _
            (ok_or_fail-Keeps Holds (npubs_of libraries hexes) _)
            (λ npubs.
              Keeps-then Holds (harvest_rows libraries rows) _ (harvest_rows-Holds rows)
                (λ rest w' n' p'. p')))
        w n p

  harvest-Holds : (store : File) → Keeps Holds (harvest_legacy_admins libraries store)
  unfolding harvest_legacy_admins
  harvest-Holds store =
      Keeps-then Holds (ok_or_fail (libraries.legacy_groups store) unreadable) _
        (ok_or_fail-Keeps Holds (libraries.legacy_groups store) unreadable) harvest_rows-Holds

  checkpoint-Holds : Keeps Holds (checkpoint_wal libraries store_path)
  unfolding checkpoint_wal
  checkpoint-Holds w n p =
      Keeps-then Holds (ok_or_fail (libraries.wal_checkpoint store_path w.disk.live) unreadable) _
        (ok_or_fail-Keeps Holds (libraries.wal_checkpoint store_path w.disk.live) unreadable)
        (λ live w' n' p'.
          effect-Ends unreadable (on_disk (λ d. record d { live = live })) (λ _ w''. Holds w'')
            Holds w' n' p' p')
        w n p

  save_admins-Holds :
      (wire_id : String) (npubs : List String)
      → Keeps Holds (save_admins libraries bot_id wire_id npubs)
  unfolding save_admins
  save_admins-Holds wire_id [] w n p = p
  save_admins-Holds wire_id (x ∷ xs) w n p =
      Keeps-then Holds (effect db_failure (on_db (upsert_mls_store_reset_admin bot_id wire_id x))) _
        (on_db-Holds db_failure (upsert_mls_store_reset_admin bot_id wire_id x)
          (by_admin wire_id x))
        (λ _. save_admins-Holds wire_id xs) w n p

  save_harvest-Holds :
      (rows : List (String × List String)) → Keeps Holds (save_harvest libraries bot_id rows)
  unfolding save_harvest
  save_harvest-Holds [] w n p = p
  save_harvest-Holds ((wire_id, npubs) ∷ rows) w n p =
      Keeps-then Holds (save_admins libraries bot_id wire_id npubs) _
        (save_admins-Holds wire_id npubs) (λ _. save_harvest-Holds rows) w n p

  move_and_complete-Holds :
      (days : ℕ) (kind : String)
      → Keeps Holds
          (move_and_complete libraries at bot_id store_path (sidecar_paths store_path) days kind)
  unfolding move_and_complete
  move_and_complete-Holds days kind =
      Keeps-then Holds (remove_or_archive at store_path (sidecar_paths store_path) days kind) _
        (λ w n p.
          drop-Ends Holds _
            (remove_or_archive at store_path (sidecar_paths store_path) days kind w n)
            (remove_or_archive-Ends D at store_path (sidecar_paths store_path) days kind w n p))
        (λ archived.
          on_db-Holds db_failure
            (complete_mls_store_reset bot_id at.reset_at (path_of libraries archived))
            (by_complete at.reset_at (path_of libraries archived)))

  mark-Holds :
      Keeps Holds (effect db_failure (on_db (mark_mls_store_reset_start bot_id at.marked_at)))
  mark-Holds =
      on_db-Holds db_failure (mark_mls_store_reset_start bot_id at.marked_at) (by_mark at.marked_at)

  reset_legacy_store-Holds :
      (store : File) (days : ℕ)
      → Keeps Holds
          (reset_legacy_store libraries at bot_id store_path store (sidecar_paths store_path) days)
  unfolding reset_legacy_store
  reset_legacy_store-Holds store days =
      Keeps-then Holds (harvest_legacy_admins libraries store) _ (harvest-Holds store) (λ harvested.
        Keeps-then Holds (checkpoint_wal libraries store_path) _ checkpoint-Holds (λ _.
          Keeps-then Holds
            (effect db_failure (on_db (mark_mls_store_reset_start bot_id at.marked_at))) _
            mark-Holds
            (λ _.
              Keeps-then Holds (save_harvest libraries bot_id harvested) _
                (save_harvest-Holds harvested) (λ _. move_and_complete-Holds days "legacy"))))

  reset_encrypted_store-Holds :
      Keeps Holds (reset_encrypted_store libraries at bot_id store_path (sidecar_paths store_path))
  unfolding reset_encrypted_store
  reset_encrypted_store-Holds =
      Keeps-then Holds (effect db_failure (on_db (mark_mls_store_reset_start bot_id at.marked_at)))
        _ mark-Holds (λ _. move_and_complete-Holds 0 "r26")

  module _ (removable : ArchiveName → Bool) (days : ℕ) where
    prune_and_answer-Holds :
        (b : Bool) → Keeps Holds (prune_and_answer libraries removable at bot_id store_path days b)
    unfolding prune_and_answer prune_expired_archives
    prune_and_answer-Holds b w n p = elim (Bool-cases (nat_beq days 0)) [
      | inl e ↦ rw (e, prune_and_answer, prune_expired_archives) p
      | inr e ↦
          rw (e, prune_and_answer, prune_expired_archives)
            (Keeps-then Holds (effect io_failure (on_disk (pruned at removable days))) _
              (λ w' n' p'.
                effect-Ends io_failure (on_disk (pruned at removable days)) (λ _ w''. Holds w'')
                  Holds w' n' p' p')
              (λ _ w' n' p'. p') w n p)
    ]

    reset_and_answer-Holds :
        Keeps Holds (reset_and_answer libraries removable at bot_id store_path days)
    unfolding reset_and_answer
    reset_and_answer-Holds =
        Keeps-then Holds
          (reset_encrypted_store libraries at bot_id store_path (sidecar_paths store_path)) _
          reset_encrypted_store-Holds (λ _. prune_and_answer-Holds true)

    after_opening-Holds :
        (o : Opened) → Keeps Holds (after_opening libraries removable at bot_id store_path days o)
    after_opening-Holds opened w n p = prune_and_answer-Holds false w n p
    after_opening-Holds wrong_key w n p = reset_and_answer-Holds w n p
    after_opening-Holds other w n p = p

    after_loading-Holds :
        (store : File) (key : Loaded)
        → Keeps Holds (after_loading libraries removable at bot_id store_path days store key)
    after_loading-Holds store absent w n p = reset_and_answer-Holds w n p
    after_loading-Holds store (loaded key) w n p =
        after_opening-Holds (libraries.new_with_key store key) w n p
    after_loading-Holds store (unusable e) w n p = p

    after_version-Holds :
        (store : File) (version : Option (Option ℕ))
        → libraries.max_version store ≡ version
        → Keeps Holds (prepare_legacy libraries removable at bot_id store_path days store)
    unfolding prepare_legacy
    after_version-Holds store none e w n p = rw (e, prepare_legacy) p
    after_version-Holds store (some none) e w n p = rw (e, prepare_legacy) p
    after_version-Holds store (some (some v)) e w n p = elim (Bool-cases (leb 100 v)) [
      | inl old ↦
          rw (e, old, prepare_legacy)
            (Keeps-then Holds
              (reset_legacy_store libraries at bot_id store_path store (sidecar_paths store_path)
                days)
              _ (reset_legacy_store-Holds store days) (λ _. prune_and_answer-Holds true) w n p)
      | inr new ↦ rw (e, new, prepare_legacy) p
    ]

    tidy-Holds :
        (leftover : Bool)
        → Keeps Holds (
            if leftover
            then finish_sidecar_cleanup at (sidecar_paths store_path) days
            else answer tt)
    tidy-Holds true w n p = finish_sidecar_cleanup-InDb D at (sidecar_paths store_path) days w n p
    tidy-Holds false w n p = p

    prepare_absent-Holds :
        Keeps Holds (prepare_absent libraries removable at bot_id store_path days)
    unfolding prepare_absent
    prepare_absent-Holds w n p =
        Keeps-then Holds _ _ (tidy-Holds (any_exists (sidecar_paths store_path) w.disk.live))
          (λ _. prune_and_answer-Holds false) w n p

    prepare_store-Holds :
        (store : File)
        → Keeps Holds (prepare_store libraries removable at bot_id store_path days store)
    unfolding prepare_store prepare_encrypted
    prepare_store-Holds store w n p = elim (Option-cases (libraries.is_database_encrypted store)) [
      | inl e ↦ rw (e, prepare_store) p
      | inr (true, e) ↦
          rw (e, prepare_store) (after_loading-Holds store (load store_path w.disk.live) w n p)
      | inr (false, e) ↦
          rw (e, prepare_store) (after_version-Holds store (libraries.max_version store) refl w n p)
    ]

    pub classify_and_prepare-Holds :
        Keeps Holds (classify_and_prepare libraries removable at bot_id store_path days)
    unfolding classify_and_prepare
    classify_and_prepare-Holds w n p = elim (Option-cases (get store_path w.disk.live)) [
      | inl e ↦ rw (e, classify_and_prepare) (prepare_absent-Holds w n p)
      | inr (store, e) ↦ rw (e, classify_and_prepare) (prepare_store-Holds store w n p)
    ]

-- ===== src/Reset/Missing.antt =====
-- What a store that is gone means for the marker in src/mls_reset.rs.
use pacto_bot_api.Prelude.{
  ℕ, String, Bool, true, false, none, string_eq, pair_eq, nat_eq, ◌≡◌, refl, if◌then◌else◌,
  Bool-cases, inl, inr, nat_beq,
}
use pacto_bot_api.Prelude.Dict.{get}
use pacto_bot_api.Reset.Io.{ArchiveName, World, answer, on_disk, Ends, resume-Ends, effect-Ends}
use pacto_bot_api.Reset.Moves.{
  Moment, sidecar_paths, any_exists, finish_sidecar_cleanup, prune_expired_archives, pruned,
  io_failure,
}
use pacto_bot_api.Reset.Classify.{Libraries, prune_and_answer, prepare_absent, classify_and_prepare}
use pacto_bot_api.Reset.Upkeep.{Keeps}
use pacto_bot_api.Reset.Upholding.{InDb, finish_sidecar_cleanup-InDb}

module _ (libraries : Libraries) (removable : ArchiveName → Bool) (at : Moment)
    (bot_id store_path : String) (days : ℕ) (start : World) where
  prune-InDb : Keeps (InDb (λ t. t ≡ start.db)) (prune_expired_archives at removable days)
  unfolding prune_expired_archives
  prune-InDb w n p = elim (Bool-cases (nat_beq days 0)) [
    | inl e ↦ rw (e, prune_expired_archives) p
    | inr e ↦
        rw (e, prune_expired_archives)
          (effect-Ends io_failure (on_disk (pruned at removable days)) (λ _ w'. w'.db ≡ start.db)
            (λ w'. w'.db ≡ start.db) w n p p)
  ]

  tidy-InDb :
      (leftover : Bool)
      → Keeps (InDb (λ t. t ≡ start.db)) (
          if leftover then finish_sidecar_cleanup at (sidecar_paths store_path) days else answer tt)
  tidy-InDb true w n p =
      finish_sidecar_cleanup-InDb (λ t. t ≡ start.db) at (sidecar_paths store_path) days w n p
  tidy-InDb false w n p = p

  abbrev pub NotReset : Bool → World → Type 0
  NotReset reset_occurred w = (reset_occurred ≡ false) × (w.db ≡ start.db)

  -- With no file at the store's path, the call never completes a marker: wherever it stops and
  -- however it ends the database is as it was, and its answer is that no reset took place.
  pub missing_store_marks_nothing :
      (n : ℕ)
      → get store_path start.disk.live ≡ none
      → Ends NotReset
          (λ w. w.db ≡ start.db)
          (classify_and_prepare libraries removable at bot_id store_path days start n)
  unfolding classify_and_prepare prepare_absent prune_and_answer
  missing_store_marks_nothing n gone =
      rw (gone, classify_and_prepare)
        (resume-Ends (λ _ w. w.db ≡ start.db) NotReset (λ w. w.db ≡ start.db)
          ((if any_exists (sidecar_paths store_path) start.disk.live
              then finish_sidecar_cleanup at (sidecar_paths store_path) days
              else answer tt)
            start n)
          _ (tidy-InDb (any_exists (sidecar_paths store_path) start.disk.live) start n refl)
          (λ _ w' n' p.
            resume-Ends (λ _ w. w.db ≡ start.db) NotReset (λ w. w.db ≡ start.db)
              (prune_expired_archives at removable days w' n') _ (prune-InDb w' n' p)
              (λ _ w'' n'' q. (refl, q))))

-- ===== src/Reset/Finished.antt =====
-- An encrypted store without the right key in src/mls_reset.rs: its reset is done, given that the
-- effects work.
use pacto_bot_api.Prelude.{
  ℕ, ◌≤◌, ◌<◌, String, Bool, true, false, some, List, ◌∷◌, string_eq, pair_eq, nat_eq, ◌==◌, ◌≡◌,
  ◌≢◌, ◌⊎◌, refl, sym, ◌∙◌, arith, Bool-cases, inl, inr, eq_iff, nat_beq,
}
use pacto_bot_api.Prelude.Dict.{get}
use text.Mathlib.TextLemmas.{append-nil, append_cancel_left}
use Prim.Native.String.{◌++◌ as str_append}
use pacto_bot_api.Db.Resets.{mark_mls_store_reset_start, complete_mls_store_reset}
use pacto_bot_api.Reset.Io.{
  File, ArchiveName, World, Outcome, done, stopped, effect, on_disk, on_db,
}
use pacto_bot_api.Reset.StoreKey.{absent, loaded, load}
use pacto_bot_api.Reset.Moves.{
  Moment, present, move_away, check_clear, remove_or_archive, prune_expired_archives, pruned,
  sidecar_paths, io_failure,
}
use pacto_bot_api.Reset.Classify.{
  Libraries, wrong_key, db_failure, path_of, move_and_complete, reset_encrypted_store,
  prune_and_answer, reset_and_answer, after_loading, prepare_encrypted, prepare_store,
  classify_and_prepare,
}
use pacto_bot_api.Reset.Clearing.{AreGone}
use pacto_bot_api.Reset.Finishing.{
  Finishes, resume-Finishes, effect-Finishes, Finishes-Ends, AllDiffer,
}
use pacto_bot_api.Reset.Done.{move_away-Finishes, check_clear-Finishes}
use pacto_bot_api.Reset.Completing.{IsReset, Nothing}
use pacto_bot_api.Reset.Ready.{IsPrepared, answer_is_ready}

appended : (store s t : String) → s ≢ t → str_append store s ≢ str_append store t
appended store s t ne e = ne (append_cancel_left store s t e)

itself : (store s : String) → s ≢ "" → store ≢ str_append store s
itself store s ne e = ne (sym (append_cancel_left store "" s (append-nil store ∙ e)))

other_text : (s t : String) → s == t ≡ false → s ≢ t
other_text s t differ e = cc (differ, (eq_iff s t).1 e)

sidecar_paths-AllDiffer : (store : String) → AllDiffer (store ∷ sidecar_paths store)
unfolding sidecar_paths
sidecar_paths-AllDiffer store = (
  (
    itself store "-wal" (other_text "-wal" "" refl),
    (
      itself store "-shm" (other_text "-shm" "" refl),
      (itself store "-journal" (other_text "-journal" "" refl), tt),
    ),
  ),
  (
    (
      appended store "-wal" "-shm" (other_text "-wal" "-shm" refl),
      (appended store "-wal" "-journal" (other_text "-wal" "-journal" refl), tt),
    ),
    ((appended store "-shm" "-journal" (other_text "-shm" "-journal" refl), tt), (tt, tt)),
  ),
)

module _ (libraries : Libraries) (removable : ArchiveName → Bool) (at : Moment)
    (bot_id store_path : String) (days : ℕ) where
  abbrev sidecars : List String
  sidecars = sidecar_paths store_path

  remove_or_archive-Finishes :
      (w : World) (n : ℕ)
      → 13 ≤ n
      → Finishes (λ _ _. Unit) 13 n (remove_or_archive at store_path sidecars 0 "r26" w n)
  unfolding remove_or_archive present sidecar_paths
  remove_or_archive-Finishes w n enough =
      resume-Finishes (λ _ w'. AreGone (store_path ∷ sidecars) w'.disk.live) (λ _ _. Unit) 13 0 n
        (move_away at true "r26" _ w n) _
        (move_away-Finishes (store_path ∷ sidecars) (omega arith)
          (sidecar_paths-AllDiffer store_path) at w n enough)
        (λ archived w' n' g le.
          resume-Finishes (λ _ _. Unit) (λ _ _. Unit) 0 0 n'
            (check_clear (store_path ∷ sidecars) w' n') _
            (check_clear-Finishes (store_path ∷ sidecars) (omega arith)
              (sidecar_paths-AllDiffer store_path) w' n' g)
            (λ _ w'' n'' q le'. (tt, omega arith)))

  reset_encrypted_store-Finishes :
      (w : World) (n : ℕ)
      → 15 ≤ n
      → Finishes
          (λ _ _. Unit)
          15
          n
          (reset_encrypted_store libraries at bot_id store_path sidecars w n)
  unfolding reset_encrypted_store move_and_complete
  reset_encrypted_store-Finishes w n enough =
      resume-Finishes (λ _ _. Unit) (λ _ _. Unit) 1 14 n
        (effect db_failure (on_db (mark_mls_store_reset_start bot_id at.marked_at)) w n) _
        (effect-Finishes db_failure (on_db (mark_mls_store_reset_start bot_id at.marked_at))
          (λ _ _. Unit) w n (omega (arith, enough)) tt)
        (λ _ w₁ n₁ _ le.
          resume-Finishes (λ _ _. Unit) (λ _ _. Unit) 13 1 n₁
            (remove_or_archive at store_path sidecars 0 "r26" w₁ n₁) _
            (remove_or_archive-Finishes w₁ n₁ (omega (arith, enough, le)))
            (λ archived w₂ n₂ _ le'.
              effect-Finishes db_failure
                (on_db (complete_mls_store_reset bot_id at.reset_at (path_of libraries archived)))
                (λ _ _. Unit) w₂ n₂ (omega (arith, enough, le, le')) tt))

  prune-Finishes :
      (w : World) (n : ℕ)
      → 0 < n
      → Finishes (λ _ _. Unit) 1 n (prune_expired_archives at removable days w n)
  unfolding prune_expired_archives
  prune-Finishes w n pos = elim (Bool-cases (nat_beq days 0)) [
    | inl e ↦ rw (e, prune_expired_archives) (tt, omega arith)
    | inr e ↦
        rw (e, prune_expired_archives)
          (effect-Finishes io_failure (on_disk (pruned at removable days)) (λ _ _. Unit) w n pos tt)
  ]

  reset_and_answer-Finishes :
      (w : World) (n : ℕ)
      → 16 ≤ n
      → Finishes
          (λ b _. b ≡ true)
          16
          n
          (reset_and_answer libraries removable at bot_id store_path days w n)
  unfolding reset_and_answer prune_and_answer
  reset_and_answer-Finishes w n enough =
      resume-Finishes (λ _ _. Unit) (λ b _. b ≡ true) 15 1 n
        (reset_encrypted_store libraries at bot_id store_path sidecars w n) _
        (reset_encrypted_store-Finishes w n (omega (arith, enough)))
        (λ _ w' n' _ le.
          resume-Finishes (λ _ _. Unit) (λ b _. b ≡ true) 1 0 n'
            (prune_expired_archives at removable days w' n') _
            (prune-Finishes w' n' (omega (arith, enough, le)))
            (λ _ w'' n'' q le'. (refl, omega arith)))

  -- There is no key beside the store, or it is the key of another.
  abbrev pub LacksKey : File → World → Type 0
  LacksKey store w =
      (load store_path w.disk.live ≡ absent)
      ⊎ ((key : List ℕ) × (load store_path w.disk.live ≡ loaded key)
          × (libraries.new_with_key store key ≡ wrong_key))

  lacking-Finishes :
      (store : File) (w : World) (n : ℕ)
      → LacksKey store w
      → 16 ≤ n
      → Finishes
          (λ b _. b ≡ true)
          16
          n
          (after_loading libraries removable at bot_id store_path days store
            (load store_path w.disk.live)
            w
            n)
  lacking-Finishes store w n (inl e) enough = rw e (reset_and_answer-Finishes w n enough)
  lacking-Finishes store w n (inr (key, e, wrong)) enough =
      rw (e, wrong) (reset_and_answer-Finishes w n enough)

  abbrev pub ResetDone : Bool → World → Type 0
  ResetDone b w = (b ≡ true) × IsReset libraries at bot_id store_path w

  to_done :
      (start : World) (n : ℕ) (o : Outcome Bool)
      → Finishes
          (λ b w. (b ≡ true) × IsPrepared libraries removable at bot_id store_path days start b w)
          16
          n
          o
      → Finishes ResetDone 16 n o
  to_done start n (done true w n') h = h
  to_done start n (done false w n') h = cc (h.0.0)
  to_done start n (stopped e w) h = h

  -- An encrypted store whose key is missing or wrong is always reset: if the first 16 effects
  -- work, the preparation does not stop before its end, its answer is that a reset took place, no
  -- file is left at the store's path and its sidecars', and the marker says that it is done.
  pub lacking_store_is_reset :
      (store : File) (start : World) (n : ℕ)
      → get store_path start.disk.live ≡ some store
      → libraries.is_database_encrypted store ≡ some true
      → LacksKey store start
      → 16 ≤ n
      → Finishes ResetDone 16 n
          (classify_and_prepare libraries removable at bot_id store_path days start n)
  unfolding classify_and_prepare prepare_store prepare_encrypted
  lacking_store_is_reset store start n here encrypted lacks enough =
      let o = classify_and_prepare libraries removable at bot_id store_path days start n in
      let finishes : Finishes (λ b _. b ≡ true) 16 n o =
        rw (here, encrypted, classify_and_prepare, prepare_store, prepare_encrypted)
          (lacking-Finishes store start n lacks enough) in
      to_done start n o (
        Finishes-Ends (λ b _. b ≡ true)
          (IsPrepared libraries removable at bot_id store_path days start) Nothing 16 n o finishes
          (answer_is_ready libraries removable at bot_id store_path days start n))

-- ===== src/Reset/Completing.antt =====
-- What the two resets of src/mls_reset.rs leave when they come to their end.
use pacto_bot_api.Prelude.{
  ℕ, String, Option, some, List, [], ◌∷◌, string_eq, pair_eq, nat_eq, ◌≡◌, refl,
}
use pacto_bot_api.Prelude.Dict.{get, get-insert_same}
use pacto_bot_api.Db.Tables.{Tables, ResetMarker}
use pacto_bot_api.Db.Resets.{
  mark_mls_store_reset_start, complete_mls_store_reset, upsert_mls_store_reset_admin,
}
use pacto_bot_api.Reset.Io.{
  File, World, Outcome, done, stopped, effect, on_db, Ends, resume-Ends, effect-Ends,
}
use pacto_bot_api.Reset.Moves.{Moment, sidecar_paths, remove_or_archive}
use pacto_bot_api.Reset.Classify.{
  Libraries, db_failure, harvest_legacy_admins, checkpoint_wal, save_admins, save_harvest,
  move_and_complete, reset_legacy_store, reset_encrypted_store, path_of,
}
use pacto_bot_api.Reset.Upkeep.{Keeps, Keeps-then}
use pacto_bot_api.Reset.Clearing.{AreGone, weaken-Ends}
use pacto_bot_api.Reset.Upholding.{InDb, remove_or_archive-Ends}

-- There is a marker for the bot; it says when the reset was done.
abbrev IsMarked : String → Tables → Type 0
IsMarked bot_id t = (m : ResetMarker) × (get bot_id t.resets ≡ some m)

abbrev pub IsCompleted : String → ℕ → Tables → Type 0
IsCompleted bot_id at t =
    (m : ResetMarker) × (get bot_id t.resets ≡ some m) × (m.reset_at ≡ some at)

abbrev pub Nothing : World → Type 0
Nothing w = Unit

Ends-any : {A : Type 0} (o : Outcome A) → Ends (λ _ _. Unit) Nothing o
Ends-any (done a w n) = tt
Ends-any (stopped e w) = tt

module _ (libraries : Libraries) (at : Moment) (bot_id store_path : String) where
  -- The path is clear and the marker says that the reset is done.
  abbrev pub IsReset : World → Type 0
  IsReset w =
      AreGone (store_path ∷ sidecar_paths store_path) w.disk.live
      × IsCompleted bot_id at.reset_at w.db

  marks : (t : Tables) → IsMarked bot_id (mark_mls_store_reset_start bot_id at.marked_at t)
  unfolding mark_mls_store_reset_start
  marks t = (_, get-insert_same bot_id _ t.resets)

  completes :
      (path : Option String) (t : Tables)
      → IsMarked bot_id t
      → IsCompleted bot_id at.reset_at (complete_mls_store_reset bot_id at.reset_at path t)
  unfolding complete_mls_store_reset
  completes path t (m, found) =
      rw (found, complete_mls_store_reset)
        (
          record m { reset_at = some at.reset_at; archive_path = path },
          get-insert_same bot_id (record m { reset_at = some at.reset_at; archive_path = path })
              t.resets,
          refl,
        )

  move_and_complete-Ends :
      (days : ℕ) (kind : String) (w : World) (n : ℕ)
      → IsMarked bot_id w.db
      → Ends
          (λ _ w'. IsReset w')
          Nothing
          (move_and_complete libraries at bot_id store_path
            (sidecar_paths store_path)
            days
            kind
            w
            n)
  unfolding move_and_complete
  move_and_complete-Ends days kind w n p =
      resume-Ends
        (λ _ w'.
          IsMarked bot_id w'.db × AreGone (store_path ∷ sidecar_paths store_path) w'.disk.live)
        (λ _ w'. IsReset w') Nothing
        (remove_or_archive at store_path (sidecar_paths store_path) days kind w n) _
        (weaken-Ends _ _ _
          (remove_or_archive at store_path (sidecar_paths store_path) days kind w n)
          (remove_or_archive-Ends (IsMarked bot_id) at store_path (sidecar_paths store_path) days
            kind w n p)
          (λ _ w' q. q))
        (λ archived w' n' q.
          effect-Ends db_failure
            (on_db (complete_mls_store_reset bot_id at.reset_at (path_of libraries archived)))
            (λ _ w''. IsReset w'') Nothing w' n' tt
            (q.1, completes (path_of libraries archived) w'.db q.0))

  save_admins-Keeps :
      (wire_id : String) (npubs : List String)
      → Keeps (InDb (IsMarked bot_id)) (save_admins libraries bot_id wire_id npubs)
  unfolding save_admins upsert_mls_store_reset_admin
  save_admins-Keeps wire_id [] w n p = p
  save_admins-Keeps wire_id (x ∷ xs) w n p =
      Keeps-then (InDb (IsMarked bot_id))
        (effect db_failure (on_db (upsert_mls_store_reset_admin bot_id wire_id x))) _
        (λ w' n' p'.
          effect-Ends db_failure (on_db (upsert_mls_store_reset_admin bot_id wire_id x))
            (λ _. InDb (IsMarked bot_id)) (InDb (IsMarked bot_id)) w' n' p' p')
        (λ _. save_admins-Keeps wire_id xs) w n p

  save_harvest-Keeps :
      (rows : List (String × List String))
      → Keeps (InDb (IsMarked bot_id)) (save_harvest libraries bot_id rows)
  unfolding save_harvest
  save_harvest-Keeps [] w n p = p
  save_harvest-Keeps ((wire_id, npubs) ∷ rows) w n p =
      Keeps-then (InDb (IsMarked bot_id)) (save_admins libraries bot_id wire_id npubs) _
        (save_admins-Keeps wire_id npubs) (λ _. save_harvest-Keeps rows) w n p

  pub reset_legacy_store-Ends :
      (store : File) (days : ℕ) (w : World) (n : ℕ)
      → Ends
          (λ _ w'. IsReset w')
          Nothing
          (reset_legacy_store libraries at bot_id store_path store
            (sidecar_paths store_path)
            days
            w
            n)
  unfolding reset_legacy_store
  reset_legacy_store-Ends store days w n =
      resume-Ends (λ _ _. Unit) (λ _ w'. IsReset w') Nothing
        (harvest_legacy_admins libraries store w n) _
        (Ends-any (harvest_legacy_admins libraries store w n))
        (λ harvested w₁ n₁ _.
          resume-Ends (λ _ _. Unit) (λ _ w'. IsReset w') Nothing
            (checkpoint_wal libraries store_path w₁ n₁) _
            (Ends-any (checkpoint_wal libraries store_path w₁ n₁))
            (λ _ w₂ n₂ _.
              resume-Ends (λ _ w'. IsMarked bot_id w'.db) (λ _ w'. IsReset w') Nothing
                (effect db_failure (on_db (mark_mls_store_reset_start bot_id at.marked_at)) w₂ n₂) _
                (effect-Ends db_failure (on_db (mark_mls_store_reset_start bot_id at.marked_at))
                  (λ _ w'. IsMarked bot_id w'.db) Nothing w₂ n₂ tt (marks w₂.db))
                (λ _ w₃ n₃ p.
                  resume-Ends (λ _ w'. IsMarked bot_id w'.db) (λ _ w'. IsReset w') Nothing
                    (save_harvest libraries bot_id harvested w₃ n₃) _
                    (weaken-Ends _ _ _ (save_harvest libraries bot_id harvested w₃ n₃)
                      (save_harvest-Keeps harvested w₃ n₃ p) (λ _ w' q. q))
                    (λ _ w₄ n₄ p'. move_and_complete-Ends days "legacy" w₄ n₄ p'))))

  pub reset_encrypted_store-Ends :
      (w : World) (n : ℕ)
      → Ends
          (λ _ w'. IsReset w')
          Nothing
          (reset_encrypted_store libraries at bot_id store_path (sidecar_paths store_path) w n)
  unfolding reset_encrypted_store
  reset_encrypted_store-Ends w n =
      resume-Ends (λ _ w'. IsMarked bot_id w'.db) (λ _ w'. IsReset w') Nothing
        (effect db_failure (on_db (mark_mls_store_reset_start bot_id at.marked_at)) w n) _
        (effect-Ends db_failure (on_db (mark_mls_store_reset_start bot_id at.marked_at))
          (λ _ w'. IsMarked bot_id w'.db) Nothing w n tt (marks w.db))
        (λ _ w₁ n₁ p. move_and_complete-Ends 0 "r26" w₁ n₁ p)

-- What holds for two reasons.
pub both-Ends :
    {A : Type 0} (Q R : A → World → Type 0) (S T : World → Type 0) (o : Outcome A)
    → Ends Q S o
    → Ends R T o
    → Ends (λ a w. Q a w × R a w) Nothing o
both-Ends Q R S T (done a w n) q r = (q, r)
both-Ends Q R S T (stopped e w) q r = tt

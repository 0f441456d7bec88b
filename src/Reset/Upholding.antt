-- ===== src/Reset/Upholding.antt =====
-- What the file operations of src/mls_reset.rs mean for `agent.db`: nothing. And what they clear.
use pacto_bot_api.Prelude.{
  ℕ, String, Bool, true, false, Option, none, some, List, [], ◌∷◌, string_eq, pair_eq, nat_eq, ◌≡◌,
  Bool-cases, inl, inr, ◌==◌, ◌||◌, ltb, nat_beq,
}
use pacto_bot_api.Db.Tables.{Tables}
use pacto_bot_api.Reset.Io.{ArchiveName, World, answer, on_disk, Ends, resume, resume-Ends}
use pacto_bot_api.Reset.Moves.{
  Moment, any_exists, present, new_archive_dir, archive_files, remove_files, move_away, check_clear,
  remove_or_archive, clean_up, finish_sidecar_cleanup, with_dir,
}
use pacto_bot_api.Reset.Upkeep.{
  Keeps, Keeps-then, archive_files-Keeps, remove_files-Keeps, new_archive_dir-Ends, named,
}
use pacto_bot_api.Reset.Clearing.{AreGone, any_exists-false}

-- A property of the database alone, through the file operations.
module _ (D : Tables → Type 0) where
  abbrev pub InDb : World → Type 0
  InDb w = D w.db

  with_dir-InDb : (name : ArchiveName) (w : World) → InDb w → InDb (on_disk (with_dir name) w)
  with_dir-InDb name w p = p

  archive_all-Keeps :
      (at : Moment) (kind : String) (ps : List String) {A : Type 0} (a : ArchiveName → A)
      → Keeps InDb (λ w n.
        resume
          (new_archive_dir at kind w n)
          (λ dest w' n'. resume (archive_files dest ps w' n') (λ _. answer (a dest))))
  archive_all-Keeps at kind ps a w n p =
      resume-Ends (λ name w'. InDb w' × (name ≡ named at kind)) (λ _ w'. InDb w') InDb
        (new_archive_dir at kind w n) _
        (new_archive_dir-Ends InDb at kind (with_dir-InDb (named at kind)) w n p)
        (λ name. λ w' n' q.
          Keeps-then InDb (archive_files name ps) _
            (archive_files-Keeps InDb (λ path f w h p. p) name (λ path f files w h h' p. p) ps)
            (λ _ w'' n'' p''. p'') w' n' q.0)

  move_away-InDb :
      (at : Moment) (archived : Bool) (kind : String) (ps : List String)
      → Keeps InDb (move_away at archived kind ps)
  unfolding move_away
  move_away-InDb at true kind ps w n p = archive_all-Keeps at kind ps some w n p
  move_away-InDb at false kind ps w n p =
      Keeps-then InDb {B = Option ArchiveName} (remove_files ps) (λ _. answer none)
        (remove_files-Keeps InDb (λ path w p. p) ps) (λ _ w' n' p'. p') w n p

  check_clear-Ends :
      (ps : List String) (w : World) (n : ℕ)
      → InDb w
      → Ends (λ _ w'. InDb w' × AreGone ps w'.disk.live) InDb (check_clear ps w n)
  unfolding check_clear
  check_clear-Ends ps w n p = elim (Bool-cases (any_exists ps w.disk.live)) [
    | inl e ↦ rw (e, check_clear) p
    | inr e ↦ rw (e, check_clear) (p, any_exists-false ps w.disk.live e)
  ]

  pub remove_or_archive-Ends :
      (at : Moment) (store_path : String) (sidecars : List String) (days : ℕ) (kind : String)
      (w : World) (n : ℕ)
      → InDb w
      → Ends
          (λ _ w'. InDb w' × AreGone (store_path ∷ sidecars) w'.disk.live)
          InDb
          (remove_or_archive at store_path sidecars days kind w n)
  unfolding remove_or_archive present
  remove_or_archive-Ends at store_path sidecars days kind w n p =
      resume-Ends (λ _ w'. InDb w') (λ _ w'. InDb w' × AreGone (store_path ∷ sidecars) w'.disk.live)
        InDb (move_away at (kind == "r26" || ltb 0 days) kind _ w n) _
        (move_away-InDb at (kind == "r26" || ltb 0 days) kind _ w n p)
        (λ archived w' n' p'.
          resume-Ends (λ _ w''. InDb w'' × AreGone (store_path ∷ sidecars) w''.disk.live)
            (λ _ w''. InDb w'' × AreGone (store_path ∷ sidecars) w''.disk.live) InDb
            (check_clear (store_path ∷ sidecars) w' n') _
            (check_clear-Ends (store_path ∷ sidecars) w' n' p') (λ _ w'' n'' q. q))

  clean_up-InDb : (at : Moment) (days : ℕ) (ps : List String) → Keeps InDb (clean_up at days ps)
  unfolding clean_up
  clean_up-InDb at days [] w n p = p
  clean_up-InDb at days (x ∷ xs) w n p = elim (Bool-cases (nat_beq days 0)) [
    | inl e ↦ rw (e, clean_up) (remove_files-Keeps InDb (λ path w p. p) (x ∷ xs) w n p)
    | inr e ↦
        rw (e, clean_up)
          (resume-Ends (λ name w'. InDb w' × (name ≡ named at "legacy")) (λ _ w'. InDb w') InDb
            (new_archive_dir at "legacy" w n) _
            (new_archive_dir-Ends InDb at "legacy" (with_dir-InDb (named at "legacy")) w n p)
            (λ name w' n' q.
              archive_files-Keeps InDb (λ path f w h p. p) name (λ path f files w h h' p. p)
                (x ∷ xs) w' n' q.0))
  ]

  pub finish_sidecar_cleanup-InDb :
      (at : Moment) (sidecars : List String) (days : ℕ)
      → Keeps InDb (finish_sidecar_cleanup at sidecars days)
  unfolding finish_sidecar_cleanup present
  finish_sidecar_cleanup-InDb at sidecars days w n p = clean_up-InDb at days _ w n p

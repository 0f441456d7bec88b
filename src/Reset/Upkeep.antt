-- ===== src/Reset/Upkeep.antt =====
-- A property of the world that the single file operations of src/mls_reset.rs keep outlives the
-- loops over files, wherever they stop.
use pacto_bot_api.Prelude.{
  ℕ, zero, suc, String, some, List, [], ◌∷◌, string_eq, pair_eq, nat_eq, ◌≡◌, refl, Option-cases,
  inl, inr,
}
use pacto_bot_api.Prelude.Dict.{Dict, get, insert, remove}
use pacto_bot_api.Reset.Io.{
  File, ArchiveName, World, Io, resume, on_disk, Ends, resume-Ends, effect-Ends,
}
use pacto_bot_api.Reset.Moves.{
  Moment, chmod, rename_into, remove_file, archive_files, remove_files, with_dir, new_archive_dir,
  io_failure,
}

abbrev pub with_mode : ℕ → String → File → World → World
with_mode mode path f =
    on_disk (λ d. record d { live = insert path (record f { mode = mode }) d.live })

abbrev pub moved : ArchiveName → String → File → Dict String File → World → World
moved dest path f files = on_disk (λ d. record d {
  live = remove path d.live;
  archives = insert dest (insert path f files) d.archives;
})

abbrev pub removed : String → World → World
removed path = on_disk (λ d. record d { live = remove path d.live })

-- The name of an archive directory made at that moment.
abbrev pub named : Moment → String → ArchiveName
named at kind = (at.archived_at, (at.suffix, kind))

module _ (P : World → Type 0) where
  -- What holds after as before, whether the run went on or stopped.
  abbrev pub Keeps : {A : Type 0} → Io A → Type 0
  Keeps m = (w : World) (n : ℕ) → P w → Ends (λ _ w'. P w') P (m w n)

  pub Keeps-then :
      {A B : Type 0} (m : Io A) (k : A → Io B)
      → Keeps m
      → ((a : A) → Keeps (k a))
      → (w : World) (n : ℕ) → P w
      → Ends (λ _ w'. P w') P (resume (m w n) k)
  Keeps-then m k h next w n p =
      resume-Ends (λ _ w'. P w') (λ _ w'. P w') P (m w n) k (h w n p)
        (λ a w' n' p'. next a w' n' p')

  module _
      (by_chmod : (path : String) (f : File) (w : World)
        → get path w.disk.live ≡ some f
        → P w
        → P (with_mode 384 path f w))
      (dest : ArchiveName)
      (by_rename : (path : String) (f : File) (files : Dict String File) (w : World)
        → get path w.disk.live ≡ some f
        → get dest w.disk.archives ≡ some files
        → P w
        → P (moved dest path f files w)) where
    chmod-Keeps : (path : String) → Keeps (chmod 384 path)
    unfolding chmod
    chmod-Keeps path w n p = elim (Option-cases (get path w.disk.live)) [
      | inl e ↦ rw (e, chmod) p
      | inr (f, e) ↦
          rw (e, chmod)
            (effect-Ends io_failure (with_mode 384 path f) (λ _ w'. P w') P w n p
              (by_chmod path f w e p))
    ]

    rename_into-Keeps : (path : String) → Keeps (rename_into dest path)
    unfolding rename_into
    rename_into-Keeps path w n p = elim (Option-cases (get path w.disk.live)) [
      | inl e ↦ rw (e, rename_into) p
      | inr (f, e) ↦ elim (Option-cases (get dest w.disk.archives)) [
        | inl e' ↦ rw (e, e', rename_into) p
        | inr (files, e') ↦
            rw (e, e', rename_into)
              (effect-Ends io_failure (moved dest path f files) (λ _ w'. P w') P w n p
                (by_rename path f files w e e' p))
      ]
    ]

    pub archive_files-Keeps : (ps : List String) → Keeps (archive_files dest ps)
    unfolding archive_files
    archive_files-Keeps [] w n p = p
    archive_files-Keeps (x ∷ xs) w n p =
        Keeps-then (chmod 384 x) _ (chmod-Keeps x)
          (λ _.
            Keeps-then (rename_into dest x) _ (rename_into-Keeps x) (λ _. archive_files-Keeps xs))
          w n p

  pub remove_files-Keeps :
      ((path : String) (w : World) → P w → P (removed path w))
      → (ps : List String) → Keeps (remove_files ps)
  unfolding remove_files remove_file
  remove_files-Keeps by_remove [] w n p = p
  remove_files-Keeps by_remove (x ∷ xs) w n p =
      Keeps-then (remove_file x) _
        (λ w n p. elim (Option-cases (get x w.disk.live)) [
          | inl e ↦ rw (e, remove_file) p
          | inr (f, e) ↦
              rw (e, remove_file)
                (effect-Ends io_failure (removed x) (λ _ w'. P w') P w n p (by_remove x w p))
        ])
        (λ _. remove_files-Keeps by_remove xs) w n p

  pub new_archive_dir-Ends :
      (at : Moment) (kind : String)
      → ((w : World) → P w → P (on_disk (with_dir (named at kind)) w))
      → (w : World) (n : ℕ) → P w
      → Ends (λ name w'. P w' × (name ≡ named at kind)) P (new_archive_dir at kind w n)
  unfolding new_archive_dir
  new_archive_dir-Ends at kind by_dir w zero p = p
  new_archive_dir-Ends at kind by_dir w (suc zero) p = p
  new_archive_dir-Ends at kind by_dir w (suc (suc zero)) p = p
  new_archive_dir-Ends at kind by_dir w (suc (suc (suc zero))) p = p
  new_archive_dir-Ends at kind by_dir w (suc (suc (suc (suc zero)))) p = by_dir w p
  new_archive_dir-Ends at kind by_dir w (suc (suc (suc (suc (suc n))))) p = (by_dir w p, refl)

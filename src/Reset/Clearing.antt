-- ===== src/Reset/Clearing.antt =====
-- The paths that src/mls_reset.rs leaves free of files.
use pacto_bot_api.Prelude.{
  ℕ, String, false, not, none, some, List, [], ◌∷◌, string_eq, pair_eq, nat_eq, ◌≡◌, arith,
  Option-cases, Bool-cases, inl, inr, eq_iff, All, keep, nat_beq,
}
use pacto_bot_api.Prelude.Dict.{Dict, get, insert, remove, get-insert, get-remove}
use pacto_bot_api.Reset.Io.{
  File, ArchiveName, World, Outcome, done, stopped, on_disk, Ends, resume-Ends, effect-Ends,
}
use pacto_bot_api.Reset.Moves.{
  Moment, chmod, rename_into, remove_file, archive_files, remove_files, with_dir, new_archive_dir,
  exists, any_exists, present, clean_up, finish_sidecar_cleanup, io_failure,
}
use pacto_bot_api.Reset.Upkeep.{with_mode, moved, removed, named, new_archive_dir-Ends}

-- No file at any of the paths.
abbrev pub AreGone : List String → Dict String File → Type 0
AreGone ps live = All (λ p. get p live ≡ none) ps

abbrev pub GoneIn : List String → World → Type 0
GoneIn ps w = AreGone ps w.disk.live

remove-AreGone :
    (q : String) (ps : List String) (live : Dict String File)
    → AreGone ps live
    → AreGone ps (remove q live)
remove-AreGone q [] live g = tt
remove-AreGone q (p ∷ ps) live g =
    (ground (arith, get-remove q p live), remove-AreGone q ps live g.1)

chmod-AreGone :
    (q : String) (f f' : File) (ps : List String) (live : Dict String File)
    → get q live ≡ some f
    → AreGone ps live
    → AreGone ps (insert q f' live)
chmod-AreGone q f f' [] live here g = tt
chmod-AreGone q f f' (p ∷ ps) live here g =
    (ground (arith, get-insert q p f' live, eq_iff q p), chmod-AreGone q f f' ps live here g.1)

-- The file that a move takes from beside the store.
gone_first : (q : String) (live : Dict String File) → get q (remove q live) ≡ none
gone_first q live = ground (arith, get-remove q q live, eq_iff q q)

rename_into-gone :
    (gone : List String) (dest : ArchiveName) (x : String) (w : World) (n : ℕ)
    → GoneIn gone w
    → Ends (λ _ w'. GoneIn (x ∷ gone) w') (λ _. Unit) (rename_into dest x w n)
unfolding rename_into
rename_into-gone gone dest x w n g = elim (Option-cases (get x w.disk.live)) [
  | inl e ↦ rw (e, rename_into) tt
  | inr (f, e) ↦ elim (Option-cases (get dest w.disk.archives)) [
    | inl e' ↦ rw (e, e', rename_into) tt
    | inr (files, e') ↦
        rw (e, e', rename_into)
          (effect-Ends io_failure (moved dest x f files) (λ _ w'. GoneIn (x ∷ gone) w') (λ _. Unit)
            w n tt (gone_first x w.disk.live, remove-AreGone x gone w.disk.live g))
  ]
]

remove_file-gone :
    (gone : List String) (x : String) (w : World) (n : ℕ)
    → GoneIn gone w
    → Ends (λ _ w'. GoneIn (x ∷ gone) w') (λ _. Unit) (remove_file x w n)
unfolding remove_file
remove_file-gone gone x w n g = elim (Option-cases (get x w.disk.live)) [
  | inl e ↦ rw (e, remove_file) tt
  | inr (f, e) ↦
      rw (e, remove_file)
        (effect-Ends io_failure (removed x) (λ _ w'. GoneIn (x ∷ gone) w') (λ _. Unit) w n tt
          (gone_first x w.disk.live, remove-AreGone x gone w.disk.live g))
]

chmod-gone :
    (gone : List String) (x : String) (w : World) (n : ℕ)
    → GoneIn gone w
    → Ends (λ _ w'. GoneIn gone w') (λ _. Unit) (chmod 384 x w n)
unfolding chmod
chmod-gone gone x w n g = elim (Option-cases (get x w.disk.live)) [
  | inl e ↦ rw (e, chmod) tt
  | inr (f, e) ↦
      rw (e, chmod)
        (effect-Ends io_failure (with_mode 384 x f) (λ _ w'. GoneIn gone w') (λ _. Unit) w n tt
          (chmod-AreGone x f (record f { mode = 384 }) gone w.disk.live e g))
]

-- Both loops clear what they run over, and what is gone stays so.
abbrev pub Clears : List String → List String → World → Type 0
Clears gone ps w = GoneIn gone w × GoneIn ps w

swap-Ends :
    (x : String) (gone xs : List String) (o : Outcome (Unit {0}))
    → Ends (λ _ w'. Clears (x ∷ gone) xs w') (λ _. Unit) o
    → Ends (λ _ w'. Clears gone (x ∷ xs) w') (λ _. Unit) o
swap-Ends x gone xs (done u w n) h = (h.0.1, (h.0.0, h.1))
swap-Ends x gone xs (stopped e w) h = tt

pub archive_files-Clears :
    (dest : ArchiveName) (gone ps : List String) (w : World) (n : ℕ)
    → GoneIn gone w
    → Ends (λ _ w'. Clears gone ps w') (λ _. Unit) (archive_files dest ps w n)
unfolding archive_files
archive_files-Clears dest gone [] w n g = (g, tt)
archive_files-Clears dest gone (x ∷ xs) w n g =
    resume-Ends (λ _ w'. GoneIn gone w') (λ _ w'. Clears gone (x ∷ xs) w') (λ _. Unit)
      (chmod 384 x w n) _ (chmod-gone gone x w n g)
      (λ _ w' n' g'.
        resume-Ends (λ _ w''. GoneIn (x ∷ gone) w'') (λ _ w''. Clears gone (x ∷ xs) w'') (λ _. Unit)
          (rename_into dest x w' n') _ (rename_into-gone gone dest x w' n' g')
          (λ _ w'' n'' g''.
            swap-Ends x gone xs (archive_files dest xs w'' n'')
              (archive_files-Clears dest (x ∷ gone) xs w'' n'' g'')))

remove_files-Clears :
    (gone ps : List String) (w : World) (n : ℕ)
    → GoneIn gone w
    → Ends (λ _ w'. Clears gone ps w') (λ _. Unit) (remove_files ps w n)
unfolding remove_files
remove_files-Clears gone [] w n g = (g, tt)
remove_files-Clears gone (x ∷ xs) w n g =
    resume-Ends (λ _ w'. GoneIn (x ∷ gone) w') (λ _ w'. Clears gone (x ∷ xs) w') (λ _. Unit)
      (remove_file x w n) _ (remove_file-gone gone x w n g)
      (λ _ w' n' g'.
        swap-Ends x gone xs (remove_files xs w' n') (remove_files-Clears (x ∷ gone) xs w' n' g'))

with_dir-gone :
    (name : ArchiveName) (gone : List String) (w : World)
    → GoneIn gone w
    → GoneIn gone (on_disk (with_dir name) w)
with_dir-gone name gone w g = elim (Option-cases (get name w.disk.archives)) [
  | inl e ↦ rw (e, with_dir) g
  | inr (fs, e) ↦ rw (e, with_dir) g
]

pub weaken-Ends :
    {A : Type 0} (Q R : A → World → Type 0) (S : World → Type 0) (o : Outcome A)
    → Ends Q S o
    → ((a : A) (w : World) → Q a w → R a w)
    → Ends R (λ _. Unit) o
weaken-Ends Q R S (done a w n) h f = f a w h
weaken-Ends Q R S (stopped e w) h f = tt

pub new_archive_dir-gone :
    (at : Moment) (kind : String) (gone : List String) (w : World) (n : ℕ)
    → GoneIn gone w
    → Ends (λ _ w'. GoneIn gone w') (λ _. Unit) (new_archive_dir at kind w n)
new_archive_dir-gone at kind gone w n g =
    weaken-Ends (λ name w'. GoneIn gone w' × (name ≡ named at kind)) (λ _ w'. GoneIn gone w')
      (GoneIn gone) (new_archive_dir at kind w n)
      (new_archive_dir-Ends (GoneIn gone) at kind (with_dir-gone (named at kind) gone) w n g)
      (λ name w' q. q.0)

clean_up-Clears :
    (at : Moment) (days : ℕ) (gone ps : List String) (w : World) (n : ℕ)
    → GoneIn gone w
    → Ends (λ _ w'. Clears gone ps w') (λ _. Unit) (clean_up at days ps w n)
unfolding clean_up
clean_up-Clears at days gone [] w n g = (g, tt)
clean_up-Clears at days gone (x ∷ xs) w n g = elim (Bool-cases (nat_beq days 0)) [
  | inl e ↦ rw (e, clean_up) (remove_files-Clears gone (x ∷ xs) w n g)
  | inr e ↦
      rw (e, clean_up)
        (resume-Ends (λ _ w'. GoneIn gone w') (λ _ w'. Clears gone (x ∷ xs) w') (λ _. Unit)
          (new_archive_dir at "legacy" w n) _ (new_archive_dir-gone at "legacy" gone w n g)
          (λ dest w' n' g'. archive_files-Clears dest gone (x ∷ xs) w' n' g'))
]

-- The paths at which there is nothing at first, and the others.
pub absent_paths :
    (live : Dict String File) (ps : List String) → AreGone (keep (λ p. not (exists p live)) ps) live
unfolding keep
absent_paths live [] = tt
absent_paths live (p ∷ ps) = ground (arith, absent_paths live ps)

pub both_parts :
    (live live' : Dict String File) (ps : List String)
    → AreGone (keep (λ p. not (exists p live)) ps) live'
    → AreGone (keep (λ p. exists p live) ps) live'
    → AreGone ps live'
unfolding keep
both_parts live live' [] a b = tt
both_parts live live' (p ∷ ps) a b = ground (arith, both_parts live live' ps)

-- With no file at the store's path, the cleaning leaves none at the sidecars' either.
pub finish_sidecar_cleanup-Clears :
    (at : Moment) (store_path : String) (sidecars : List String) (days : ℕ) (w : World) (n : ℕ)
    → get store_path w.disk.live ≡ none
    → Ends
        (λ _ w'. AreGone (store_path ∷ sidecars) w'.disk.live)
        (λ _. Unit)
        (finish_sidecar_cleanup at sidecars days w n)
unfolding finish_sidecar_cleanup present
finish_sidecar_cleanup-Clears at store_path sidecars days w n absent =
    let live = w.disk.live in
    let there = keep (λ p. exists p live) sidecars in
    let rest = keep (λ p. not (exists p live)) sidecars in
    weaken-Ends (λ _ w'. Clears (store_path ∷ rest) there w')
      (λ _ w'. AreGone (store_path ∷ sidecars) w'.disk.live) (λ _. Unit)
      (clean_up at days there w n)
      (clean_up-Clears at days (store_path ∷ rest) there w n (absent, absent_paths live sidecars))
      (λ _ w' q. (q.0.0, both_parts live w'.disk.live sidecars q.0.1 q.1))

pub any_exists-false :
    (ps : List String) (live : Dict String File) → any_exists ps live ≡ false → AreGone ps live
unfolding any_exists
any_exists-false [] live h = tt
any_exists-false (p ∷ ps) live h = ground (arith, any_exists-false ps live)

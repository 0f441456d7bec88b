-- ===== src/Reset/Moves.antt =====
-- The removals, archives and pruning of src/mls_reset.rs.
use pacto_bot_api.Prelude.{
  ℕ, ◌-◌, ◌*◌, String, Bool, true, false, not, ◌&&◌, ◌||◌, Option, none, some, List, [], ◌∷◌, map,
  string_eq, nat_eq, pair_eq, ◌==◌, if◌then◌else◌, ltb, nat_beq, format, keep,
}
use pacto_bot_api.Prelude.Dict.{Dict, get, insert, remove, retain}
use pacto_bot_api.Reset.Io.{
  File, ArchiveName, Disk, Io, ◌>>=◌, ◌>>◌, answer, fail, look, effect, on_disk,
}

-- What the clock shows at each call of `unix_now`, and the random suffix of a new archive.
pub record Moment : Type 0 where
  pub marked_at : ℕ
  pub archived_at : ℕ
  pub reset_at : ℕ
  pub pruned_at : ℕ
  pub suffix : String

abbrev pub io_failure : String
io_failure = "MLS store filesystem error"

-- `sidecar_paths`
unfoldable pub sidecar_paths : String → List String
sidecar_paths store_path =
    map (λ suffix. format (store_path ∷ suffix ∷ [])) ("-wal" ∷ "-shm" ∷ "-journal" ∷ [])

-- `Path::exists`
abbrev pub exists : String → Dict String File → Bool
exists path live = elim (get path live) [ none ↦ false | some _ ↦ true ]

-- `iter().any(|p| p.exists())`
unfoldable pub any_exists : List String → Dict String File → Bool
any_exists [] live = false
any_exists (p ∷ ps) live = exists p live || any_exists ps live

unfoldable pub chmod : ℕ → String → Io (Unit {0})
chmod mode path w n = elim (get path w.disk.live) [
  | none ↦ fail io_failure w n
  | some f ↦
      effect io_failure
        (on_disk (λ d. record d { live = insert path (record f { mode = mode }) d.live })) w n
]

-- `std::fs::rename` of a file into an archive directory.
unfoldable pub rename_into : ArchiveName → String → Io (Unit {0})
rename_into dest path w n = elim (get path w.disk.live) [
  | none ↦ fail io_failure w n
  | some f ↦ elim (get dest w.disk.archives) [
    | none ↦ fail io_failure w n
    | some files ↦
        effect io_failure
          (on_disk (λ d. record d {
            live = remove path d.live;
            archives = insert dest (insert path f files) d.archives;
          }))
          w n
  ]
]

-- `std::fs::remove_file`
unfoldable pub remove_file : String → Io (Unit {0})
remove_file path w n = elim (get path w.disk.live) [
  | none ↦ fail io_failure w n
  | some f ↦ effect io_failure (on_disk (λ d. record d { live = remove path d.live })) w n
]

-- The loops over the files that are there: 384 is `0o600`.
unfoldable pub archive_files : ArchiveName → List String → Io (Unit {0})
unfolding chmod rename_into
archive_files dest [] = answer tt
archive_files dest (p ∷ ps) = do chmod 384 p; rename_into dest p; archive_files dest ps

unfoldable pub remove_files : List String → Io (Unit {0})
unfolding remove_file
remove_files [] = answer tt
remove_files (p ∷ ps) = do remove_file p; remove_files ps

-- `create_dir_all` of a directory that may be there.
abbrev pub with_dir : ArchiveName → Disk → Disk
with_dir name d = elim (get name d.archives) [
  | none ↦ record d { archives = insert name [] d.archives }
  | some _ ↦ d
]

-- `new_archive_dir`: the root directory, its permissions, the suffix, the directory, its permissions.
unfoldable pub new_archive_dir : Moment → String → Io ArchiveName
new_archive_dir at kind = do
  effect io_failure (λ w. w)
  effect io_failure (λ w. w)
  effect "MLS store: failed to generate archive suffix" (λ w. w)
  let name : ArchiveName = (at.archived_at, (at.suffix, kind)) in
      do effect io_failure (on_disk (with_dir name)); effect io_failure (λ w. w); answer name

unfoldable pub present : List String → Io (List String)
present paths = look (λ w. keep (λ p. exists p w.disk.live) paths)

-- The last check of `remove_or_archive`.
unfoldable pub check_clear : List String → Io (Unit {0})
unfolding any_exists
check_clear paths = do
  left ← look (λ w. any_exists paths w.disk.live)
  if left then fail "MLS store: file remained at the live path after reset" else answer tt

-- `if archived { .. } else { .. }`
unfoldable pub move_away : Moment → Bool → String → List String → Io (Option ArchiveName)
unfolding new_archive_dir archive_files remove_files
move_away at true kind existing = do
  dest ← new_archive_dir at kind
  archive_files dest existing
  answer (some dest)
move_away at false kind existing = do remove_files existing; answer none

-- `remove_or_archive`
unfoldable pub remove_or_archive :
    Moment → String → List String → ℕ → String → Io (Option ArchiveName)
unfolding present move_away check_clear
remove_or_archive at store_path sidecars archive_retention_days kind = do
  existing ← present (store_path ∷ sidecars)
  archive_path ← move_away at (kind == "r26" || ltb 0 archive_retention_days) kind existing
  check_clear (store_path ∷ sidecars)
  answer archive_path

-- `finish_sidecar_cleanup`, for the sidecars that are there.
unfoldable pub clean_up : Moment → ℕ → List String → Io (Unit {0})
unfolding remove_files new_archive_dir archive_files
clean_up at archive_retention_days [] = answer tt
clean_up at archive_retention_days (p ∷ ps) =
    if nat_beq archive_retention_days 0
    then remove_files (p ∷ ps)
    else do dest ← new_archive_dir at "legacy"; archive_files dest (p ∷ ps)

-- `finish_sidecar_cleanup`
unfoldable pub finish_sidecar_cleanup : Moment → List String → ℕ → Io (Unit {0})
unfolding present clean_up
finish_sidecar_cleanup at sidecars archive_retention_days = do
  existing ← present sidecars
  clean_up at archive_retention_days existing

-- Does the pruning take the archive? The time before the window stops at 0 for a clock near 1970,
-- where the source goes below it: no stamp is smaller than either.
unfoldable pub is_expired : ℕ → ℕ → ArchiveName → Bool
is_expired now retention_days name =
    if name.1.1 == "r26" then false else ltb name.0 (now - retention_days * 86400)

abbrev pub stays : Moment → (ArchiveName → Bool) → ℕ → ArchiveName → Dict String File → Bool
stays at removable retention_days name _ =
    not (removable name && is_expired at.pruned_at retention_days name)

abbrev pub pruned : Moment → (ArchiveName → Bool) → ℕ → Disk → Disk
pruned at removable retention_days d = record d {
  archives = retain (stays at removable retention_days) d.archives;
}

-- `prune_expired_archives`, where `removable` says which directories the system lets go; one that
-- it does not is left as it is, and so are all where the daemon dies before.
unfoldable pub prune_expired_archives : Moment → (ArchiveName → Bool) → ℕ → Io (Unit {0})
unfolding is_expired
prune_expired_archives at removable retention_days w n =
    if nat_beq retention_days 0
    then answer tt w n
    else effect io_failure (on_disk (pruned at removable retention_days)) w n

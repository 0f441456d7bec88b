-- ===== src/Reset/Kept.antt =====
-- An encrypted store of src/mls_reset.rs, wherever its reset stops.
use pacto_bot_api.Prelude.{
  ℕ, String, Bool, none, some, List, [], string_eq, pair_eq, nat_eq, ◌≡◌, ◌⊎◌, arith, Option-cases,
  inl, inr, eq_iff, ◌==◌, Bool-cases, nat_beq,
}
use pacto_bot_api.Prelude.Dict.{
  Dict, get, insert, get-insert, get-remove, Distinct, get-retain, insert-Distinct, retain-Distinct,
}
use pacto_bot_api.Reset.Io.{File, ArchiveName, World, on_disk, effect-Ends, name_beq_iff}
use pacto_bot_api.Reset.Moves.{
  Moment, with_dir, stays, pruned, prune_expired_archives, io_failure, is_expired,
}
use pacto_bot_api.Reset.Upkeep.{with_mode, moved, Keeps}

-- The file in an archive of the kind that is exempt from pruning.
abbrev pub InArchive : String → List ℕ → World → Type 0
InArchive path bytes w =
    (name : ArchiveName) × (files : Dict String File) × (f : File) × (get name w.disk.archives
      ≡ some files)
    × (get path files ≡ some f)
    × (f.bytes ≡ bytes)
    × (name.1.1 ≡ "r26")

abbrev pub IsLive : String → List ℕ → World → Type 0
IsLive path bytes w = (f : File) × (get path w.disk.live ≡ some f) × (f.bytes ≡ bytes)

-- The contents of the file are beside the store, or safe in an archive.
abbrev pub IsSafe : String → List ℕ → World → Type 0
IsSafe path bytes w =
    Distinct w.disk.archives
    × (IsLive path bytes w ⊎ ((get path w.disk.live ≡ none) × InArchive path bytes w))

module _ (path : String) (bytes : List ℕ) where
  pub chmod-IsSafe :
      (q : String) (f : File) (w : World)
      → get q w.disk.live ≡ some f
      → IsSafe path bytes w
      → IsSafe path bytes (with_mode 384 q f w)
  chmod-IsSafe q f w here (d, inl (g, found, same)) = elim (Bool-cases (q == path)) [
    | inl e ↦ (
      d,
      inl (
        record f { mode = 384 },
        ground (arith, get-insert q path (record f { mode = 384 }) w.disk.live),
        ground (arith, eq_iff q path),
      ),
    )
    | inr e ↦
        (d, inl (g, ground (arith, get-insert q path (record f { mode = 384 }) w.disk.live), same))
  ]
  chmod-IsSafe q f w here (d, inr (gone, kept)) = (
    d,
    inr (
      ground (arith, eq_iff q path, get-insert q path (record f { mode = 384 }) w.disk.live),
      kept,
    ),
  )

  -- What stands in an archive stays there when another file enters it.
  insert-InArchive :
      (dest : ArchiveName) (q : String) (f : File) (files : Dict String File) (w : World)
      → get q w.disk.live ≡ some f
      → get dest w.disk.archives ≡ some files
      → get path w.disk.live ≡ none
      → InArchive path bytes w
      → InArchive path bytes (moved dest q f files w)
  insert-InArchive dest q f files w here there gone (name, fs, g, inn, found, same, kind) =
      elim (Bool-cases (dest == name)) [
        | inl e ↦ (
          name,
          insert q f files,
          g,
          ground (arith, get-insert dest name (insert q f files) w.disk.archives),
          ground (arith, get-insert q path f files, eq_iff q path, name_beq_iff dest name),
          same,
          kind,
        )
        | inr e ↦ (
          name,
          fs,
          g,
          ground (arith, get-insert dest name (insert q f files) w.disk.archives),
          found,
          same,
          kind,
        )
      ]

  pub rename-IsSafe :
      (dest : ArchiveName)
      → dest.1.1 ≡ "r26"
      → (q : String) (f : File) (files : Dict String File) (w : World) → get q w.disk.live ≡ some f
      → get dest w.disk.archives ≡ some files
      → IsSafe path bytes w
      → IsSafe path bytes (moved dest q f files w)
  rename-IsSafe dest r26 q f files w here there (d, inl (g, found, same)) =
      elim (Bool-cases (q == path)) [
        | inl e ↦ (
          insert-Distinct dest (insert q f files) w.disk.archives d,
          inr (
            ground (arith, get-remove q path w.disk.live),
            (
              dest,
              insert q f files,
              f,
              ground (
                arith,
                get-insert dest dest (insert q f files) w.disk.archives,
                name_beq_iff dest dest,
              ),
              ground (arith, get-insert q path f files),
              ground (arith, eq_iff q path),
              r26,
            ),
          ),
        )
        | inr e ↦ (
          insert-Distinct dest (insert q f files) w.disk.archives d,
          inl (g, ground (arith, get-remove q path w.disk.live), same),
        )
      ]
  rename-IsSafe dest r26 q f files w here there (d, inr (gone, kept)) = (
    insert-Distinct dest (insert q f files) w.disk.archives d,
    inr (
      ground (arith, get-remove q path w.disk.live),
      insert-InArchive dest q f files w here there gone kept,
    ),
  )

  pub with_dir-IsSafe :
      (name : ArchiveName) (w : World)
      → IsSafe path bytes w
      → IsSafe path bytes (on_disk (with_dir name) w)
  with_dir-IsSafe name w (d, inl live) = elim (Option-cases (get name w.disk.archives)) [
    | inl e ↦ rw (e, with_dir) (insert-Distinct name [] w.disk.archives d, inl live)
    | inr (fs, e) ↦ rw (e, with_dir) (d, inl live)
  ]
  with_dir-IsSafe name w (d, inr (gone, (other, fs, g, inn, found, same, kind))) =
      elim (Option-cases (get name w.disk.archives)) [
        | inl e ↦
            rw (e, with_dir)
              (
                insert-Distinct name [] w.disk.archives d,
                inr (
                  gone,
                  (
                    other,
                    fs,
                    g,
                    ground
                        (arith, get-insert name other [] w.disk.archives, name_beq_iff name other),
                    found,
                    same,
                    kind,
                  ),
                ),
              )
        | inr (fs', e) ↦ rw (e, with_dir) (d, inr (gone, (other, fs, g, inn, found, same, kind)))
      ]

  pruned-IsSafe :
      (at : Moment) (removable : ArchiveName → Bool) (days : ℕ) (w : World)
      → IsSafe path bytes w
      → IsSafe path bytes (on_disk (pruned at removable days) w)
  unfolding is_expired
  pruned-IsSafe at removable days w (d, inl live) =
      (retain-Distinct (stays at removable days) w.disk.archives d, inl live)
  pruned-IsSafe at removable days w (d, inr (gone, (other, fs, g, inn, found, same, kind))) = (
    retain-Distinct (stays at removable days) w.disk.archives d,
    inr (
      gone,
      (
        other,
        fs,
        g,
        ground (
          arith,
          get-retain (stays at removable days) other w.disk.archives d,
          eq_iff other.1.1 "r26",
        ),
        found,
        same,
        kind,
      ),
    ),
  )

  pub prune-IsSafe :
      (at : Moment) (removable : ArchiveName → Bool) (days : ℕ)
      → Keeps (IsSafe path bytes) (prune_expired_archives at removable days)
  unfolding prune_expired_archives
  prune-IsSafe at removable days w n s = elim (Bool-cases (nat_beq days 0)) [
    | inl e ↦ rw (e, prune_expired_archives) s
    | inr e ↦
        rw (e, prune_expired_archives)
          (effect-Ends io_failure (on_disk (pruned at removable days))
            (λ _ w'. IsSafe path bytes w') (IsSafe path bytes) w n s
            (pruned-IsSafe at removable days w s))
  ]

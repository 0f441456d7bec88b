-- ===== src/Reset/Ready.antt =====
-- What `classify_and_prepare` of src/mls_reset.rs leaves when it answers.
use pacto_bot_api.Prelude.{
  ℕ, String, Bool, true, false, Option, none, some, List, ◌∷◌, string_eq, pair_eq, nat_eq, ◌≡◌, ◌⊎◌,
  refl, leb, Bool-cases, Option-cases, inl, inr, nat_beq,
}
use pacto_bot_api.Prelude.Dict.{get}
use pacto_bot_api.Reset.Io.{File, ArchiveName, World, on_disk, Ends, resume-Ends, effect-Ends}
use pacto_bot_api.Reset.StoreKey.{Loaded, absent, loaded, unusable, load}
use pacto_bot_api.Reset.Moves.{
  Moment, sidecar_paths, any_exists, finish_sidecar_cleanup, prune_expired_archives, pruned,
  io_failure,
}
use pacto_bot_api.Reset.Classify.{
  Libraries, Opened, opened, wrong_key, other, prune_and_answer, reset_legacy_store,
  reset_encrypted_store, reset_and_answer, after_opening, after_loading, prepare_absent,
  prepare_legacy, prepare_encrypted, prepare_store, classify_and_prepare,
}
use pacto_bot_api.Reset.Clearing.{AreGone, finish_sidecar_cleanup-Clears, any_exists-false}
use pacto_bot_api.Reset.Upholding.{finish_sidecar_cleanup-InDb}
use pacto_bot_api.Reset.Completing.{
  IsReset, Nothing, both-Ends, reset_legacy_store-Ends, reset_encrypted_store-Ends,
}

module _ (libraries : Libraries) (removable : ArchiveName → Bool) (at : Moment)
    (bot_id store_path : String) (days : ℕ) (start : World) where
  -- The store opens with the key that stands beside it.
  abbrev pub OpensAtOnce : Type 0
  OpensAtOnce =
      (store : File) × (key : List ℕ) × (get store_path start.disk.live ≡ some store)
      × (load store_path start.disk.live ≡ loaded key)
      × (libraries.new_with_key store key ≡ opened)

  -- The answer `true` and the answer `false`.
  abbrev pub IsPrepared : Bool → World → Type 0
  IsPrepared true w = IsReset libraries at bot_id store_path w
  IsPrepared false w =
      (w.db ≡ start.db)
      × (AreGone (store_path ∷ sidecar_paths store_path) w.disk.live
          ⊎ ((w.disk.live ≡ start.disk.live) × OpensAtOnce))

  pruned-IsPrepared :
      (b : Bool) (w : World) → IsPrepared b w → IsPrepared b (on_disk (pruned at removable days) w)
  pruned-IsPrepared true w p = p
  pruned-IsPrepared false w p = p

  prune-Ends :
      (b : Bool) (w : World) (n : ℕ)
      → IsPrepared b w
      → Ends (λ _ w'. IsPrepared b w') Nothing (prune_expired_archives at removable days w n)
  unfolding prune_expired_archives
  prune-Ends b w n p = elim (Bool-cases (nat_beq days 0)) [
    | inl e ↦ rw (e, prune_expired_archives) p
    | inr e ↦
        rw (e, prune_expired_archives)
          (effect-Ends io_failure (on_disk (pruned at removable days)) (λ _ w'. IsPrepared b w')
            Nothing w n tt (pruned-IsPrepared b w p))
  ]

  prune_and_answer-Ends :
      (b : Bool) (w : World) (n : ℕ)
      → IsPrepared b w
      → Ends IsPrepared Nothing
          (prune_and_answer libraries removable at bot_id store_path days b w n)
  unfolding prune_and_answer
  prune_and_answer-Ends b w n p =
      resume-Ends (λ _ w'. IsPrepared b w') IsPrepared Nothing
        (prune_expired_archives at removable days w n) _ (prune-Ends b w n p) (λ _ w' n' q. q)

  reset_and_answer-Ends :
      (w : World) (n : ℕ)
      → Ends IsPrepared Nothing (reset_and_answer libraries removable at bot_id store_path days w n)
  unfolding reset_and_answer
  reset_and_answer-Ends w n =
      resume-Ends (λ _ w'. IsReset libraries at bot_id store_path w') IsPrepared Nothing
        (reset_encrypted_store libraries at bot_id store_path (sidecar_paths store_path) w n) _
        (reset_encrypted_store-Ends libraries at bot_id store_path w n)
        (λ _ w' n' q. prune_and_answer-Ends true w' n' q)

  after_opening-Ends :
      (o : Opened) (n : ℕ)
      → (o ≡ opened → OpensAtOnce)
      → Ends IsPrepared Nothing
          (after_opening libraries removable at bot_id store_path days o start n)
  after_opening-Ends opened n h = prune_and_answer-Ends false start n (refl, inr (refl, h refl))
  after_opening-Ends wrong_key n h = reset_and_answer-Ends start n
  after_opening-Ends other n h = tt

  after_loading-Ends :
      (store : File) (key : Loaded) (n : ℕ)
      → get store_path start.disk.live ≡ some store
      → load store_path start.disk.live ≡ key
      → Ends IsPrepared Nothing
          (after_loading libraries removable at bot_id store_path days store key start n)
  after_loading-Ends store absent n here h = reset_and_answer-Ends start n
  after_loading-Ends store (loaded key) n here h =
      after_opening-Ends (libraries.new_with_key store key) n (λ o. (store, key, here, h, o))
  after_loading-Ends store (unusable e) n here h = tt

  after_version-Ends :
      (store : File) (version : Option (Option ℕ)) (n : ℕ)
      → libraries.max_version store ≡ version
      → Ends IsPrepared Nothing
          (prepare_legacy libraries removable at bot_id store_path days store start n)
  unfolding prepare_legacy
  after_version-Ends store none n e = rw (e, prepare_legacy) tt
  after_version-Ends store (some none) n e = rw (e, prepare_legacy) tt
  after_version-Ends store (some (some v)) n e = elim (Bool-cases (leb 100 v)) [
    | inl old ↦
        rw (e, old, prepare_legacy)
          (resume-Ends (λ _ w'. IsReset libraries at bot_id store_path w') IsPrepared Nothing
            (reset_legacy_store libraries at bot_id store_path store (sidecar_paths store_path) days
              start n)
            _ (reset_legacy_store-Ends libraries at bot_id store_path store days start n)
            (λ _ w' n' q. prune_and_answer-Ends true w' n' q))
    | inr new ↦ rw (e, new, prepare_legacy) tt
  ]

  prepare_store-Ends :
      (store : File) (n : ℕ)
      → get store_path start.disk.live ≡ some store
      → Ends IsPrepared Nothing
          (prepare_store libraries removable at bot_id store_path days store start n)
  unfolding prepare_store prepare_encrypted
  prepare_store-Ends store n here = elim (Option-cases (libraries.is_database_encrypted store)) [
    | inl e ↦ rw (e, prepare_store) tt
    | inr (true, e) ↦
        rw (e, prepare_store)
          (after_loading-Ends store (load store_path start.disk.live) n here refl)
    | inr (false, e) ↦
        rw (e, prepare_store) (after_version-Ends store (libraries.max_version store) n refl)
  ]

  prepare_absent-Ends :
      (n : ℕ)
      → get store_path start.disk.live ≡ none
      → Ends IsPrepared Nothing
          (prepare_absent libraries removable at bot_id store_path days start n)
  unfolding prepare_absent
  prepare_absent-Ends n gone =
      elim (Bool-cases (any_exists (sidecar_paths store_path) start.disk.live)) [
        | inl e ↦
            rw (e, prepare_absent)
              (resume-Ends
                (λ _ w'.
                  (w'.db ≡ start.db) × AreGone (store_path ∷ sidecar_paths store_path) w'.disk.live)
                IsPrepared Nothing
                (finish_sidecar_cleanup at (sidecar_paths store_path) days start n) _
                (both-Ends (λ _ w'. w'.db ≡ start.db)
                  (λ _ w'. AreGone (store_path ∷ sidecar_paths store_path) w'.disk.live)
                  (λ w'. w'.db ≡ start.db) Nothing
                  (finish_sidecar_cleanup at (sidecar_paths store_path) days start n)
                  (finish_sidecar_cleanup-InDb (λ t. t ≡ start.db) at (sidecar_paths store_path)
                    days start n refl)
                  (finish_sidecar_cleanup-Clears at store_path (sidecar_paths store_path) days start
                    n gone))
                (λ _ w' n' q. prune_and_answer-Ends false w' n' (q.0, inl q.1)))
        | inr e ↦
            rw (e, prepare_absent)
              (prune_and_answer-Ends false start n
                (refl, inl (gone, any_exists-false (sidecar_paths store_path) start.disk.live e)))
      ]

  -- Whenever the preparation of a store answers, the path is ready for the engine: after the answer
  -- `true` no file is left at the store's path or its sidecars' and the bot's marker says that the
  -- reset is done; after the answer `false` the database is as it was, and either no file is left
  -- there or the files are as they were and the store opens with the key beside it. This holds
  -- for every failure that an effect may have.
  pub answer_is_ready :
      (n : ℕ)
      → Ends IsPrepared Nothing
          (classify_and_prepare libraries removable at bot_id store_path days start n)
  unfolding classify_and_prepare
  answer_is_ready n = elim (Option-cases (get store_path start.disk.live)) [
    | inl e ↦ rw (e, classify_and_prepare) (prepare_absent-Ends n e)
    | inr (store, e) ↦ rw (e, classify_and_prepare) (prepare_store-Ends store n e)
  ]

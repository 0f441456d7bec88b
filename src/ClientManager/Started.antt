-- ===== src/ClientManager/Started.antt =====
-- The start of a bot with an MLS store in src/client_manager.rs, from the store to the tables.
use pacto_bot_api.Prelude.{
  ℕ, String, Bool, true, false, ◌&&◌, ◌||◌, Option, some, List, string_eq, pair_eq, if◌then◌else◌,
  ◌≡◌, refl, ap, ◌∙◌, arith, Option-cases, inl, inr,
}
use pacto_bot_api.Prelude.Dict.{Dict, get}
use pacto_bot_api.Errors.{Result, ok, err}
use pacto_bot_api.Db.Tables.{GroupRow, Tables}
use pacto_bot_api.Db.Groups.{with_mark}
use pacto_bot_api.Db.Resets.{
  load_mls_store_reset_marker, mark_mls_store_reset_start, complete_mls_store_reset,
  upsert_mls_store_reset_admin,
}
use pacto_bot_api.Db.Keys.{IsKeyed}
use pacto_bot_api.Reset.Io.{
  File, ArchiveName, World, Outcome, done, stopped, on_disk, Ends, resume-Ends,
}
use pacto_bot_api.Reset.Moves.{Moment}
use pacto_bot_api.Reset.Classify.{Libraries, classify_and_prepare}
use pacto_bot_api.Reset.Completing.{Nothing, both-Ends}
use pacto_bot_api.Reset.Ready.{IsPrepared, answer_is_ready}
use pacto_bot_api.Reset.Tracing.{classify_and_prepare-Holds}
use pacto_bot_api.ClientManager.Reconcile.{
  GroupInfo, has_wire, is_live, completed, reconcile_mls_groups,
}
use pacto_bot_api.ClientManager.Loops.{AreApart, AllStand}
use pacto_bot_api.ClientManager.Reconciled.{Reconciled, reconcile_mls_groups-Reconciled}
use pacto_bot_api.ClientManager.Starting.{Engine, settle, reconcile, construct_mls_bot_state}

-- The keys are in order and the groups are those of the start.
abbrev SameGroups : Tables → Tables → Type 0
SameGroups start t = IsKeyed t × (t.groups ≡ start.groups)

mark-SameGroups :
    (start : Tables) (bot_id : String) (at : ℕ) (t : Tables)
    → SameGroups start t
    → SameGroups start (mark_mls_store_reset_start bot_id at t)
unfolding mark_mls_store_reset_start
mark-SameGroups start bot_id at t (k, same) =
    (record { names = k.names; rows = k.rows; wires = k.wires; owned = k.owned }, same)

complete-SameGroups :
    (start : Tables) (bot_id : String) (at : ℕ) (path : Option String) (t : Tables)
    → SameGroups start t
    → SameGroups start (complete_mls_store_reset bot_id at path t)
unfolding complete_mls_store_reset
complete-SameGroups start bot_id at path t (k, same) = elim (Option-cases (get bot_id t.resets)) [
  | inl e ↦ rw (e, complete_mls_store_reset) (k, same)
  | inr (m, e) ↦
      rw (e, complete_mls_store_reset)
        (record { names = k.names; rows = k.rows; wires = k.wires; owned = k.owned }, same)
]

admin-SameGroups :
    (start : Tables) (bot_id wire_id npub : String) (t : Tables)
    → SameGroups start t
    → SameGroups start (upsert_mls_store_reset_admin bot_id wire_id npub t)
unfolding upsert_mls_store_reset_admin
admin-SameGroups start bot_id wire_id npub t (k, same) =
    (record { names = k.names; rows = k.rows; wires = k.wires; owned = k.owned }, same)

-- The row as the start leaves it, where the engine does not have the group.
abbrev pub row_after : Bool → String → ℕ → Tables → GroupRow → GroupRow
row_after reset_occurred bot_id now start r =
    if (reset_occurred || completed (load_mls_store_reset_marker bot_id start))
      && is_live r.state_lost_at
    then with_mark (some now) r
    else r

-- What holds of the world after the start; the groups are those that the engine lists in its store.
pub record Started (mdk : Engine) (bot_id : String) (now : ℕ) (start : Tables)
    (reset_occurred : Bool) (w : World) : Type 0 where
  pub groups : List GroupInfo
  pub listed : mdk.list_groups w.disk.live ≡ ok groups
  pub keyed : IsKeyed w.db
  pub standing : AllStand bot_id groups w.db
  pub missing :
      (n : String) (r : GroupRow)
      → get (bot_id, n) start.groups ≡ some r
      → has_wire r.wire_id groups ≡ false
      → get (bot_id, n) w.db.groups ≡ some (row_after reset_occurred bot_id now start r)

module _ (libraries : Libraries) (mdk : Engine) (to_bech32 : String → Result String)
    (removable : ArchiveName → Bool) (at : Moment) (now : ℕ) (bot_id npub store_path : String)
    (days : ℕ) (start : World) where
  -- What is known after the store was prepared.
  abbrev Prepared : Bool → World → Type 0
  Prepared b w =
      SameGroups start.db w.db
      × (completed (load_mls_store_reset_marker bot_id w.db)
          ≡ (b || completed (load_mls_store_reset_marker bot_id start.db)))

  to_Prepared :
      (o : Outcome Bool)
      → Ends
          (λ b w.
            SameGroups start.db w.db
            × IsPrepared libraries removable at bot_id store_path days start b w)
          Nothing
          o
      → Ends Prepared Nothing o
  to_Prepared (done true w n) (same, (clear, (m, found, at_last))) =
      (same, ap completed found ∙ ground (arith, at_last))
  to_Prepared (done false w n) (same, (untouched, _)) =
      (same, ap (λ t. completed (load_mls_store_reset_marker bot_id t)) untouched)
  to_Prepared (stopped e w) h = tt

  classify-Prepared :
      (n : ℕ)
      → IsKeyed start.db
      → Ends Prepared Nothing
          (classify_and_prepare libraries removable at bot_id store_path days start n)
  classify-Prepared n k =
      let o = classify_and_prepare libraries removable at bot_id store_path days start n in
      to_Prepared o (
        both-Ends (λ _ w. SameGroups start.db w.db)
          (IsPrepared libraries removable at bot_id store_path days start)
          (λ w. SameGroups start.db w.db) Nothing o
          (classify_and_prepare-Holds (SameGroups start.db) bot_id (mark-SameGroups start.db bot_id)
            (complete-SameGroups start.db bot_id) (admin-SameGroups start.db bot_id) libraries at
            store_path removable days start n (k, refl))
          (answer_is_ready libraries removable at bot_id store_path days start n))

  started :
      (b : Bool) (gs : List GroupInfo) (w : World) (t : Tables)
      → mdk.list_groups w.disk.live ≡ ok gs
      → Prepared b w
      → Reconciled bot_id now gs w.db t
      → Started mdk bot_id now start.db b (record w { db = t })
  started b gs w t from_engine ((k, same), marker) r = record {
    groups = gs;
    listed = from_engine;
    keyed = r.keyed;
    standing = r.standing;
    missing = λ n row here gone.
        r.missing n row (ap (get (bot_id, n)) same ∙ here) gone
        ∙ ap (λ c. some (if c && is_live row.state_lost_at then with_mark (some now) row else row))
            marker;
  }

  settled :
      (b : Bool) (w : World) (n : ℕ) (p : Tables × Result (Unit {0}))
      → (p.1 ≡ ok tt → Started mdk bot_id now start.db b (record w { db = p.0 }))
      → Ends (λ _ w'. Started mdk bot_id now start.db b w') Nothing (settle p w n)
  settled b w n (t, ok tt) h = h refl
  settled b w n (t, err e) h = tt

  after_listing :
      (b : Bool) (w : World) (n : ℕ) (listed : Result (List GroupInfo))
      → mdk.list_groups w.disk.live ≡ listed
      → ((gs : List GroupInfo) → listed ≡ ok gs → AreApart gs)
      → Prepared b w
      → Ends
          (λ _ w'. Started mdk bot_id now start.db b w')
          Nothing
          (settle (reconcile_mls_groups to_bech32 now bot_id npub listed w.db) w n)
  unfolding reconcile_mls_groups
  after_listing b w n (err e) same apart p = tt
  after_listing b w n (ok gs) same apart p =
      settled b w n (reconcile_mls_groups to_bech32 now bot_id npub (ok gs) w.db) (λ worked.
        started b gs w (reconcile_mls_groups to_bech32 now bot_id npub (ok gs) w.db).0 same p (
          reconcile_mls_groups-Reconciled to_bech32 now bot_id npub gs w.db (apart gs refl) p.0.0
            worked))

  reconcile-Ends :
      (b : Bool) (w : World) (n : ℕ)
      → ((live : Dict String File) (gs : List GroupInfo)
          → mdk.list_groups live ≡ ok gs
          → AreApart gs)
      → Prepared b w
      → Ends
          (λ _ w'. Started mdk bot_id now start.db b w')
          Nothing
          (reconcile libraries mdk to_bech32 removable at now bot_id npub store_path days w n)
  unfolding reconcile
  reconcile-Ends b w n apart p =
      after_listing b w n (mdk.list_groups w.disk.live) refl (apart w.disk.live) p

  -- When the start of a bot with an MLS store succeeds, from tables whose keys are in order and
  -- with an engine whose groups have different wire ids: the keys are in order again, every group
  -- that the engine lists in its store stands in the tables under its wire id and its name, and each
  -- group of the bot that stood there before and that the engine does not list is marked as lost now, if the store was reset in
  -- this start or a reset was completed before and no mark was on it, and is as before otherwise.
  pub construct_mls_bot_state-Started :
      (n : ℕ)
      → ((live : Dict String File) (gs : List GroupInfo)
          → mdk.list_groups live ≡ ok gs
          → AreApart gs)
      → IsKeyed start.db
      → Ends (Started mdk bot_id now start.db) Nothing (
          construct_mls_bot_state libraries mdk to_bech32 removable at now bot_id npub store_path
            days start n)
  unfolding construct_mls_bot_state
  construct_mls_bot_state-Started n apart k =
      resume-Ends Prepared (Started mdk bot_id now start.db) Nothing
        (classify_and_prepare libraries removable at bot_id store_path days start n) _
        (classify-Prepared n k)
        (λ b w n' p. elim (Option-cases (mdk.open_store store_path w.disk.live)) [
          | inl e ↦ rw e tt
          | inr (live, e) ↦
              let opened = on_disk (λ d. record d { live = live }) w in
              rw e (
                resume-Ends (λ _ w'. Started mdk bot_id now start.db b w')
                  (Started mdk bot_id now start.db) Nothing
                  (reconcile libraries mdk to_bech32 removable at now bot_id npub store_path days
                    opened n')
                  _ (reconcile-Ends b opened n' apart p) (λ _ w'' n'' s. s))
        ])

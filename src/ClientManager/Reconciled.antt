-- ===== src/ClientManager/Reconciled.antt =====
-- `reconcile_mls_groups` of src/client_manager.rs as a whole.
use pacto_bot_api.Prelude.{
  ℕ, String, Bool, true, false, ◌&&◌, some, List, [], ◌∷◌, string_eq, pair_eq, if◌then◌else◌, ◌≡◌,
  refl, ap, ◌∙◌, arith, Bool-cases, inl, inr,
}
use pacto_bot_api.Prelude.Dict.{get}
use pacto_bot_api.Errors.{Result, ok, err}
use pacto_bot_api.Db.Tables.{GroupRow, Tables}
use pacto_bot_api.Db.Groups.{set_state_lost, with_mark}
use pacto_bot_api.Db.Resets.{load_mls_store_reset_marker}
use pacto_bot_api.Db.Keys.{IsKeyed}
use pacto_bot_api.Db.Runs.{sets_lost-IsKeyed}
use pacto_bot_api.Db.Reconciling.{Stands}
use pacto_bot_api.ClientManager.Reconcile.{
  GroupInfo, has_wire, load_all_mls_groups, is_live, upsert_groups, mark_missing, completed,
  mark_after, reconcile_mls_groups,
}
use pacto_bot_api.ClientManager.Loops.{Upserted, AreApart, AllStand, upsert_groups-Upserted}
use pacto_bot_api.ClientManager.Marks.{
  is_lost, marked, names_lost, get-mark_missing, names_lost-load_all,
}

mark_missing-IsKeyed :
    (b : String) (now : ℕ) (gs : List GroupInfo) (rows : List (String × GroupRow)) (t : Tables)
    → IsKeyed t
    → IsKeyed (mark_missing b now gs rows t)
unfolding mark_missing
mark_missing-IsKeyed b now gs [] t k = k
mark_missing-IsKeyed b now gs ((n, r) ∷ rows) t k = elim (Bool-cases (is_lost gs r)) [
  | inl e ↦
      rw (e, mark_missing)
        (mark_missing-IsKeyed b now gs rows (set_state_lost (b, n) (some now) t)
          (sets_lost-IsKeyed b n (some now) t k))
  | inr e ↦ rw (e, mark_missing) (mark_missing-IsKeyed b now gs rows t k)
]

-- A mark leaves a group under its wire id.
marked-Stands :
    (b w n : String) (now : ℕ) (t t' : Tables) (c : Bool)
    → get (b, n) t'.groups ≡ (if c then marked now (get (b, n) t.groups) else get (b, n) t.groups)
    → Stands b w n t
    → Stands b w n t'
marked-Stands b w n now t t' true e (r, here, same) =
    (with_mark (some now) r, e ∙ ap (marked now) here, same)
marked-Stands b w n now t t' false e (r, here, same) = (r, e ∙ here, same)

mark_missing-AllStand :
    (b : String) (now : ℕ) (gs hs : List GroupInfo) (rows : List (String × GroupRow)) (t : Tables)
    → AllStand b hs t
    → AllStand b hs (mark_missing b now gs rows t)
mark_missing-AllStand b now gs [] rows t s = tt
mark_missing-AllStand b now gs (h ∷ hs) rows t s = (
  marked-Stands b h.wire_id h.name now t (mark_missing b now gs rows t) (names_lost h.name gs rows)
      (get-mark_missing b now gs rows t h.name) s.0,
  mark_missing-AllStand b now gs hs rows t s.1,
)

-- The row as it is after the bot's start, if the engine does not know its group.
abbrev pub after_start : String → ℕ → Tables → GroupRow → GroupRow
after_start b now t r =
    if completed (load_mls_store_reset_marker b t) && is_live r.state_lost_at
    then with_mark (some now) r
    else r

pub record Reconciled (b : String) (now : ℕ) (gs : List GroupInfo) (t t' : Tables) : Type 0 where
  pub keyed : IsKeyed t'
  pub standing : AllStand b gs t'
  pub missing :
      (n : String) (r : GroupRow)
      → get (b, n) t.groups ≡ some r
      → has_wire r.wire_id gs ≡ false
      → get (b, n) t'.groups ≡ some (after_start b now t r)

mark_after-Reconciled :
    (b : String) (now : ℕ) (gs : List GroupInfo) (t t' : Tables) (r : Result (Unit {0}))
    → IsKeyed t
    → (r ≡ ok tt → Upserted b gs t t')
    → (mark_after now b gs t (t', r)).1 ≡ ok tt
    → Reconciled b now gs t (mark_after now b gs t (t', r)).0
unfolding mark_after
mark_after-Reconciled b now gs t t' (err e) k upserted h = cc
mark_after-Reconciled b now gs t t' (ok tt) k upserted h =
    let u = upserted refl in
    let same : load_mls_store_reset_marker b t' ≡ load_mls_store_reset_marker b t =
      ap (get b) u.leaving.0 in
    elim (Bool-cases (completed (load_mls_store_reset_marker b t'))) [
      | inl e ↦
          rw (e, mark_after)
            (record {
              keyed = mark_missing-IsKeyed b now gs (load_all_mls_groups b t.groups) t' u.keyed;
              standing =
                  mark_missing-AllStand b now gs gs (load_all_mls_groups b t.groups) t' u.standing;
              missing = λ n r here gone. ground (
                arith,
                get-mark_missing b now gs (load_all_mls_groups b t.groups) t' n,
                names_lost-load_all b n gs t.groups k.names,
                u.leaving.1 n r here gone,
                same,
                e,
              );
            })
      | inr e ↦
          rw (e, mark_after)
            (record {
              keyed = u.keyed;
              standing = u.standing;
              missing = λ n r here gone. ground (arith, u.leaving.1 n r here gone, same, e);
            })
    ]

-- When the reconciliation of a bot succeeds, on tables whose keys are in order and for groups of
-- the engine with different wire ids: every group of the engine stands in the tables under its
-- wire id and its name, each group of the bot that the engine does not have is marked as lost now
-- if a reset of the bot's store was completed and no mark is on it, and is as before otherwise;
-- and the keys are in order.
pub reconcile_mls_groups-Reconciled :
    (to_bech32 : String → Result String) (now : ℕ) (b npub : String) (gs : List GroupInfo)
    (t : Tables)
    → AreApart gs
    → IsKeyed t
    → (reconcile_mls_groups to_bech32 now b npub (ok gs) t).1 ≡ ok tt
    → Reconciled b now gs t (reconcile_mls_groups to_bech32 now b npub (ok gs) t).0
unfolding reconcile_mls_groups
reconcile_mls_groups-Reconciled to_bech32 now b npub gs t apart k h =
    mark_after-Reconciled b now gs t (upsert_groups to_bech32 b npub gs t).0
      (upsert_groups to_bech32 b npub gs t).1 k
      (upsert_groups-Upserted to_bech32 b npub gs t apart k) h

-- ===== src/ClientManager/Reconcile.antt =====
-- `reconcile_mls_groups` of src/client_manager.rs: the tables of `agent.db` against the engine.
use pacto_bot_api.Prelude.{
  ℕ, String, Bool, true, false, not, ◌&&◌, ◌||◌, Option, none, some, List, [], ◌∷◌, string_eq,
  pair_eq, ◌==◌, if◌then◌else◌,
}
use pacto_bot_api.Prelude.Dict.{Dict}
use pacto_bot_api.Errors.{Result, ok, err, ◌>>=◌}
use pacto_bot_api.Db.Tables.{GroupKey, GroupRow, ResetMarker, Tables}
use pacto_bot_api.Db.Groups.{upsert_mls_group_from_reconciliation, set_state_lost}
use pacto_bot_api.Db.Resets.{load_mls_store_reset_marker}

-- What the engine's `list_groups` says of a group.
pub record GroupInfo : Type 0 where
  pub wire_id : String
  pub name : String
  pub members : List String

-- `engine_wire_ids.contains(..)`
unfoldable pub has_wire : String → List GroupInfo → Bool
has_wire wire_id [] = false
has_wire wire_id (g ∷ gs) = g.wire_id == wire_id || has_wire wire_id gs

-- The members as npubs, where `to_bech32` is of the `nostr` crate.
unfoldable pub npubs_of : (String → Result String) → List String → Result (List String)
npubs_of to_bech32 [] = ok []
npubs_of to_bech32 (pk ∷ pks) = do
  npub ← to_bech32 pk
  npubs ← npubs_of to_bech32 pks
  ok (npub ∷ npubs)

-- `load_all_mls_groups`: the rows of one bot.
unfoldable pub load_all_mls_groups : String → Dict GroupKey GroupRow → List (String × GroupRow)
load_all_mls_groups bot_id [] = []
load_all_mls_groups bot_id (((b, n), row) ∷ rest) =
    let rows = load_all_mls_groups bot_id rest in if b == bot_id then (n, row) ∷ rows else rows

abbrev pub completed : Option ResetMarker → Bool
completed none = false
completed (some m) = elim m.reset_at [ none ↦ false | some _ ↦ true ]

-- The loop over the engine's groups: an error stops it, and what it wrote stays.
unfoldable pub upsert_groups :
    (String → Result String)
    → String
    → String
    → List GroupInfo
    → Tables
    → Tables × Result (Unit {0})
unfolding npubs_of upsert_mls_group_from_reconciliation
upsert_groups to_bech32 bot_id bot_npub [] t = (t, ok tt)
upsert_groups to_bech32 bot_id bot_npub (g ∷ gs) t =
    elim (npubs_of to_bech32 g.members >>= λ members.
    upsert_mls_group_from_reconciliation bot_id bot_npub g.wire_id g.name members t) [
      | err e ↦ (t, err e)
      | ok t' ↦ upsert_groups to_bech32 bot_id bot_npub gs t'
    ]

abbrev pub is_live : Option ℕ → Bool
is_live none = true
is_live (some _) = false

-- The loop over the rows that were there at the start.
unfoldable pub mark_missing :
    String → ℕ → List GroupInfo → List (String × GroupRow) → Tables → Tables
unfolding has_wire set_state_lost
mark_missing bot_id now groups [] t = t
mark_missing bot_id now groups ((n, row) ∷ rows) t =
    let lost = is_live row.state_lost_at && not (has_wire row.wire_id groups) in
    mark_missing bot_id now groups rows
      (if lost then set_state_lost (bot_id, n) (some now) t else t)

-- What comes after the loop.
unfoldable pub mark_after :
    ℕ → String → List GroupInfo → Tables → Tables × Result (Unit {0}) → Tables × Result (Unit {0})
unfolding load_all_mls_groups mark_missing
mark_after now bot_id groups t (t', err e) = (t', err e)
mark_after now bot_id groups t (t', ok _) =
    if completed (load_mls_store_reset_marker bot_id t')
    then (mark_missing bot_id now groups (load_all_mls_groups bot_id t.groups) t', ok tt)
    else (t', ok tt)

-- `reconcile_mls_groups`
unfoldable pub reconcile_mls_groups :
    (String → Result String)
    → ℕ
    → String
    → String
    → Result (List GroupInfo)
    → Tables
    → Tables × Result (Unit {0})
unfolding upsert_groups mark_after
reconcile_mls_groups to_bech32 now bot_id bot_npub (err e) t = (t, err e)
reconcile_mls_groups to_bech32 now bot_id bot_npub (ok groups) t =
    mark_after now bot_id groups t (upsert_groups to_bech32 bot_id bot_npub groups t)

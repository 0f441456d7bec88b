-- ===== src/Db/Reconciling.antt =====
-- `upsert_mls_group_from_reconciliation` of src/db.rs as a whole.
use pacto_bot_api.Prelude.{
  String, false, none, some, List, string_eq, pair_eq, ◌==◌, ◌≡◌, ◌≢◌, refl, sym, ap, ◌∙◌, subst,
  arith, eq_iff, Bool-cases, Option-cases, inl, inr,
}
use pacto_bot_api.Prelude.Dict.{get, remove, get-insert, get-remove, get-insert_same}
use pacto_bot_api.Errors.{Result, ok, err}
use pacto_bot_api.Db.Tables.{GroupRow, Tables}
use pacto_bot_api.Db.Groups.{
  find_wire, upsert_mls_group_from_reconciliation, rename_group, insert_reconciled, name_collision,
}
use pacto_bot_api.Db.Keys.{
  IsKeyed, insert_mls_group_fresh, find_wire-some, find_wire-none, insert_mls_group-IsKeyed,
  with_group,
}
use pacto_bot_api.Db.Renames.{rename_group_free, rename_group_taken, renamed-IsKeyed}

-- The group that the engine reports stands in the tables, under its wire id and its name.
abbrev pub Stands : String → String → String → Tables → Type 0
Stands b wire name t = (row : GroupRow) × (get (b, name) t.groups ≡ some row) × (row.wire_id ≡ wire)

-- Another group of the bot has the name.
abbrev pub NameTaken : String → String → String → Tables → Type 0
NameTaken b wire name t =
    (row : GroupRow) × (get (b, name) t.groups ≡ some row) × (row.wire_id ≢ wire)

-- What becomes of the other groups and of the reset markers: nothing.
pub record Leaves (b wire : String) (t t' : Tables) : Type 0 where
  pub markers : t'.resets ≡ t.resets
  pub others :
      (b' n : String) (r : GroupRow)
      → get (b', n) t.groups ≡ some r
      → (b' ≡ b → r.wire_id ≢ wire)
      → get (b', n) t'.groups ≡ some r

module _ (b npub wire name : String) (ms : List String) (t : Tables) (k : IsKeyed t) where
  abbrev pub Outcome : Result Tables → Type 0
  Outcome (ok t') = IsKeyed t' × Stands b wire name t' × Leaves b wire t t'
  Outcome (err e) = NameTaken b wire name t

  known_outcome :
      (old : String) → find_wire b wire t.groups ≡ some old → Outcome (rename_group b old name t)
  unfolding rename_group
  known_outcome old found =
      let (row, here, same) = find_wire-some b wire old t.groups k.names found in
      let differ : old == name ≡ false → old ≢ name = λ ne e. cc (ne, (eq_iff old name).1 e) in
      elim (Bool-cases (old == name)) [
        | inl eq ↦
            let kept : rename_group b old name t ≡ ok t = rw eq refl in
            subst Outcome (sym kept) (
              k,
              (row, ap (λ n. get (b, n) t.groups) (sym ((eq_iff old name).0 eq)) ∙ here, same),
              record { markers = refl; others = λ b' n r h apart. h },
            )
        | inr ne ↦ elim (Option-cases (get (b, name) t.groups)) [
          | inl free ↦
              subst Outcome (sym (rename_group_free b old name t k (differ ne) row here free)) (
                renamed-IsKeyed b old name t k (differ ne) row here free,
                (row, get-insert_same (b, name) row (remove (b, old) t.groups), same),
                record {
                  markers = refl;
                  others = λ b' n r h apart. ground (
                    arith,
                    get-insert (b, name) (b', n) row (remove (b, old) t.groups),
                    get-remove (b, old) (b', n) t.groups,
                    eq_iff b b',
                    eq_iff old n,
                    eq_iff name n,
                  );
                },
              )
          | inr (other, taken) ↦
              subst Outcome
                (sym (rename_group_taken b old name t k (differ ne) row here other taken))
                (
                  other,
                  taken,
                  λ e. differ ne (k.wires b old name row other here taken (same ∙ sym e)),
                )
        ]
      ]

  new_outcome : find_wire b wire t.groups ≡ none → Outcome (insert_reconciled b npub wire name ms t)
  unfolding insert_reconciled
  new_outcome fresh = elim (Option-cases (get (b, name) t.groups)) [
    | inl absent ↦
        let row : GroupRow = record {
          wire_id = wire;
          creator_npub = npub;
          relay = "";
          state_lost_at = none;
        } in
        let entered = insert_mls_group_fresh (b, name) row ms t absent fresh in
        let done : insert_reconciled b npub wire name ms t ≡ ok (with_group (b, name) row ms t) =
          rw (absent, insert_reconciled) entered in
        subst Outcome (sym done) (
          insert_mls_group-IsKeyed (b, name) row ms t (with_group (b, name) row ms t) entered k,
          (row, get-insert_same (b, name) row t.groups, refl),
          record {
            markers = refl;
            others = λ b' n r h apart.
                ground
                  (arith, get-insert (b, name) (b', n) row t.groups, eq_iff b b', eq_iff name n);
          },
        )
    | inr (row, taken) ↦
        let failed : insert_reconciled b npub wire name ms t
            ≡ err (name_collision name row.wire_id wire) =
          rw (taken, insert_reconciled) refl in
        subst Outcome (sym failed) (row, taken, find_wire-none b wire name t.groups row fresh taken)
  ]

  -- In tables whose keys are in order, reconciling a group that the engine reports gives tables
  -- whose keys are in order and in which that wire id has that name, whether the group was new,
  -- known, or known under another name; the rows with other wire ids and the reset markers are as
  -- before. It fails only where the name belongs to another group of the bot.
  pub upsert_reconciles : Outcome (upsert_mls_group_from_reconciliation b npub wire name ms t)
  unfolding upsert_mls_group_from_reconciliation
  upsert_reconciles = elim (Option-cases (find_wire b wire t.groups)) [
    | inl fresh ↦
        let e : upsert_mls_group_from_reconciliation b npub wire name ms t
            ≡ insert_reconciled b npub wire name ms t =
          rw (fresh, upsert_mls_group_from_reconciliation) refl in
        subst Outcome (sym e) (new_outcome fresh)
    | inr (old, found) ↦
        let e : upsert_mls_group_from_reconciliation b npub wire name ms t
            ≡ rename_group b old name t =
          rw (found, upsert_mls_group_from_reconciliation) refl in
        subst Outcome (sym e) (known_outcome old found)
  ]

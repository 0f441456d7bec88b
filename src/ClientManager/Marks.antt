-- ===== src/ClientManager/Marks.antt =====
-- The groups that `reconcile_mls_groups` of src/client_manager.rs marks as lost.
use pacto_bot_api.Prelude.{
  ℕ, String, Bool, false, not, ◌&&◌, ◌||◌, Option, none, some, List, [], ◌∷◌, string_eq, pair_eq,
  ◌==◌, if◌then◌else◌, ◌≡◌, refl, arith, eq_iff, Bool-cases, Option-cases, inl, inr, pair_beq_iff,
}
use pacto_bot_api.Prelude.Dict.{Dict, get, get-insert, Distinct}
use pacto_bot_api.Db.Tables.{GroupKey, GroupRow, Tables}
use pacto_bot_api.Db.Groups.{set_state_lost, with_mark}
use pacto_bot_api.ClientManager.Reconcile.{
  GroupInfo, has_wire, load_all_mls_groups, is_live, mark_missing,
}

-- A row that the engine does not know and that no mark is on.
abbrev pub is_lost : List GroupInfo → GroupRow → Bool
is_lost gs r = is_live r.state_lost_at && not (has_wire r.wire_id gs)

abbrev pub marked : ℕ → Option GroupRow → Option GroupRow
marked now none = none
marked now (some r) = some (with_mark (some now) r)

get-set_state_lost :
    (key k : GroupKey) (now : ℕ) (t : Tables)
    → get k (set_state_lost key (some now) t).groups
      ≡ (if key == k then marked now (get k t.groups) else get k t.groups)
unfolding set_state_lost
get-set_state_lost key k now t = elim (Option-cases (get key t.groups)) [
  | inl e ↦ rw (e, set_state_lost) (ground (arith, pair_beq_iff string_eq string_eq key k))
  | inr (r, e) ↦
      rw (e, set_state_lost)
        (ground (
          arith,
          get-insert key k (with_mark (some now) r) t.groups,
          pair_beq_iff string_eq string_eq key k,
        ))
]

-- Is there a row of that name to mark?
unfoldable pub names_lost : String → List GroupInfo → List (String × GroupRow) → Bool
names_lost m gs [] = false
names_lost m gs ((n, r) ∷ rows) = (is_lost gs r && n == m) || names_lost m gs rows

marked_twice : (now : ℕ) (o : Option GroupRow) → marked now (marked now o) ≡ marked now o
marked_twice now none = refl
marked_twice now (some r) = refl

pub get-mark_missing :
    (b : String) (now : ℕ) (gs : List GroupInfo) (rows : List (String × GroupRow)) (t : Tables)
    (m : String)
    → get (b, m) (mark_missing b now gs rows t).groups
      ≡ (if names_lost m gs rows then marked now (get (b, m) t.groups) else get (b, m) t.groups)
unfolding mark_missing names_lost
get-mark_missing b now gs [] t m = refl
get-mark_missing b now gs ((n, r) ∷ rows) t m = elim (Bool-cases (is_lost gs r)) [
  | inl e ↦
      rw (e, mark_missing, names_lost)
        (ground (
          arith,
          get-mark_missing b now gs rows (set_state_lost (b, n) (some now) t) m,
          get-set_state_lost (b, n) (b, m) now t,
          marked_twice now (get (b, m) t.groups),
          eq_iff b b,
          eq_iff n m,
        ))
  | inr e ↦ rw (e, mark_missing, names_lost) (get-mark_missing b now gs rows t m)
]

-- The row that stands under a name decides whether the name is among those to mark.
abbrev pub lost_row : List GroupInfo → Option GroupRow → Bool
lost_row gs none = false
lost_row gs (some r) = is_lost gs r

pub names_lost-load_all :
    (b m : String) (gs : List GroupInfo) (d : Dict GroupKey GroupRow)
    → Distinct d
    → names_lost m gs (load_all_mls_groups b d) ≡ lost_row gs (get (b, m) d)
unfolding names_lost load_all_mls_groups get
names_lost-load_all b m gs [] a = refl
names_lost-load_all b m gs (((b', n), r) ∷ rest) a =
    ground (arith, names_lost-load_all b m gs rest a.1, eq_iff b' b, eq_iff n m, a.0)

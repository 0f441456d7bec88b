-- ===== src/Db/Keys.antt =====
-- The keys of src/db.rs: no two groups of a bot share a wire id, and each member row has its group.
use pacto_bot_api.Prelude.{
  String, ◌&&◌, none, some, List, [], ◌∷◌, string_eq, pair_eq, ◌==◌, ◌≡◌, ◌≢◌, sym, ap, ◌∙◌, subst,
  arith, eq_iff, Bool-cases, Option-cases, inl, inr, pair_beq_iff,
}
use pacto_bot_api.Prelude.Dict.{Dict, Distinct, get, insert, get-insert, insert-Distinct}
use pacto_bot_api.Errors.{ok, bind-eq-ok}
use pacto_bot_api.Db.Tables.{GroupKey, GroupRow, Tables}
use pacto_bot_api.Db.Groups.{find_wire, insert_row, add_members, insert_mls_group}

abbrev pub Groups : Type 0
Groups = Dict GroupKey GroupRow

abbrev pub Members : Type 0
Members = Dict (GroupKey × String) (Unit {0})

-- The row under which a wire id is found.
pub find_wire-some :
    (b w n : String) (gs : Groups)
    → Distinct gs
    → find_wire b w gs ≡ some n
    → (r : GroupRow) × (get (b, n) gs ≡ some r) × (r.wire_id ≡ w)
unfolding find_wire get
find_wire-some b w n [] d h = cc
find_wire-some b w n (((b', n'), row) ∷ rest) d h =
    elim (Bool-cases (b' == b && row.wire_id == w)) [
      | inl here ↦
          (row, ground (arith, eq_iff b' b, eq_iff n' n), ground (arith, eq_iff row.wire_id w))
      | inr there ↦
          let (r, found, same) = find_wire-some b w n rest d.1 (ground arith) in
          (r, ground (arith, eq_iff b' b, eq_iff n' n), same)
    ]

pub find_wire-none :
    (b w n : String) (gs : Groups) (r : GroupRow)
    → find_wire b w gs ≡ none
    → get (b, n) gs ≡ some r
    → r.wire_id ≢ w
unfolding find_wire get
find_wire-none b w n [] r h found e = cc
find_wire-none b w n (((b', n'), row) ∷ rest) r h found e =
    ground (arith, eq_iff b' b, eq_iff n' n, eq_iff row.wire_id w, find_wire-none b w n rest r)

pub ok_injective : {A : Type 0} (a b : A) → ok a ≡ ok b → a ≡ b
ok_injective a b h = cc

pub record IsKeyed (t : Tables) : Type 0 where
  pub names : Distinct t.groups
  pub rows : Distinct t.members
  pub wires :
      (b n n' : String) (r r' : GroupRow)
      → get (b, n) t.groups ≡ some r
      → get (b, n') t.groups ≡ some r'
      → r.wire_id ≡ r'.wire_id
      → n ≡ n'
  pub owned : (k : GroupKey) (m : String) → get (k, m) t.members ≡ some tt → get k t.groups ≢ none

pub insert_row-eq-ok :
    (key : GroupKey) (row : GroupRow) (gs gs' : Groups)
    → insert_row key row gs ≡ ok gs'
    → (get key gs ≡ none) × (find_wire key.0 row.wire_id gs ≡ none) × (gs' ≡ insert key row gs)
unfolding insert_row
insert_row-eq-ok key row gs gs' h = (ground arith, ground arith, ground arith)

add_members-owner :
    (key k : GroupKey) (m : String) (ms : List String) (d : Members)
    → get (k, m) (add_members key ms d) ≡ some tt
    → get (k, m) d ≡ none
    → key ≡ k
unfolding add_members
add_members-owner key k m [] d h absent = cc
add_members-owner key k m (x ∷ xs) d h absent = elim (Bool-cases (key == k)) [
  | inl same ↦ (pair_beq_iff string_eq string_eq key k).0 same
  | inr other ↦
      add_members-owner key k m xs (insert (key, x) tt d) h
        (ground (arith, get-insert (key, x) (k, m) tt d))
]

add_members-Distinct :
    (key : GroupKey) (ms : List String) (d : Members) → Distinct d → Distinct (add_members key ms d)
unfolding add_members
add_members-Distinct key [] d a = a
add_members-Distinct key (x ∷ xs) d a =
    add_members-Distinct key xs (insert (key, x) tt d) (insert-Distinct (key, x) tt d a)

-- A new group with a wire id that the bot does not have.
insert_wires :
    (b0 n0 : String) (row : GroupRow) (gs : Groups)
    → find_wire b0 row.wire_id gs ≡ none
    → ((b n n' : String) (r r' : GroupRow)
        → get (b, n) gs ≡ some r
        → get (b, n') gs ≡ some r'
        → r.wire_id ≡ r'.wire_id
        → n ≡ n')
    → (b n n' : String) (r r' : GroupRow) → get (b, n) (insert (b0, n0) row gs) ≡ some r
    → get (b, n') (insert (b0, n0) row gs) ≡ some r'
    → r.wire_id ≡ r'.wire_id
    → n ≡ n'
insert_wires b0 n0 row gs fresh old b n n' r r' h h' same = ground (
  arith,
  get-insert (b0, n0) (b, n) row gs,
  get-insert (b0, n0) (b, n') row gs,
  eq_iff b0 b,
  eq_iff n0 n,
  eq_iff n0 n',
  old b n n' r r',
  find_wire-none b0 row.wire_id n gs r fresh,
  find_wire-none b0 row.wire_id n' gs r' fresh,
)

-- The members' rows of an owner, before and after its group came in.
add_members-owned :
    (key : GroupKey) (row : GroupRow) (ms : List String) (t : Tables)
    → IsKeyed t
    → (k : GroupKey) (m : String) → get (k, m) (add_members key ms t.members) ≡ some tt
    → get k (insert key row t.groups) ≢ none
add_members-owned key row ms t keyed k m h gone = elim (Option-cases (get (k, m) t.members)) [
  | inl absent ↦
      let same = add_members-owner key k m ms t.members h absent in
      ground (arith, get-insert key k row t.groups, pair_beq_iff string_eq string_eq key k)
  | inr (tt, old) ↦
      keyed.owned k m old
        (ground (arith, get-insert key k row t.groups, pair_beq_iff string_eq string_eq key k))
]

abbrev pub with_group : GroupKey → GroupRow → List String → Tables → Tables
with_group key row ms t = record t {
  groups = insert key row t.groups;
  members = add_members key ms t.members;
}

pub insert_mls_group-eq-ok :
    (key : GroupKey) (row : GroupRow) (ms : List String) (t t' : Tables)
    → insert_mls_group key row ms t ≡ ok t'
    → (get key t.groups ≡ none)
      × (find_wire key.0 row.wire_id t.groups ≡ none)
      × (t' ≡ with_group key row ms t)
unfolding insert_mls_group
insert_mls_group-eq-ok key row ms t t' h =
    let (gs, entered, rest) = bind-eq-ok (insert_row key row t.groups) _ h in
    let (absent, fresh, grown) = insert_row-eq-ok key row t.groups gs entered in
    (
      absent,
      fresh,
      ok_injective t' (record t { groups = gs; members = add_members key ms t.members }) (sym rest)
          ∙ ap (λ g. record t { groups = g; members = add_members key ms t.members }) grown,
    )

pub insert_mls_group-IsKeyed :
    (key : GroupKey) (row : GroupRow) (ms : List String) (t t' : Tables)
    → insert_mls_group key row ms t ≡ ok t'
    → IsKeyed t
    → IsKeyed t'
insert_mls_group-IsKeyed key row ms t t' h k =
    let (absent, fresh, grown) = insert_mls_group-eq-ok key row ms t t' h in
    subst IsKeyed (sym grown) (record {
      names = insert-Distinct key row t.groups k.names;
      rows = add_members-Distinct key ms t.members k.rows;
      wires = insert_wires key.0 key.1 row t.groups fresh k.wires;
      owned = add_members-owned key row ms t k;
    })

-- A group under a new name and a new wire id goes in.
pub insert_mls_group_fresh :
    (key : GroupKey) (row : GroupRow) (ms : List String) (t : Tables)
    → get key t.groups ≡ none
    → find_wire key.0 row.wire_id t.groups ≡ none
    → insert_mls_group key row ms t ≡ ok (with_group key row ms t)
unfolding insert_mls_group insert_row
insert_mls_group_fresh key row ms t absent fresh = ground arith

-- ===== src/Db/Renames.antt =====
-- A group that comes back under another name, in src/db.rs.
use pacto_bot_api.Prelude.{
  String, false, none, some, [], ◌∷◌, string_eq, pair_eq, ◌==◌, if◌then◌else◌, ◌≡◌, ◌≢◌, refl, ap,
  arith, eq_iff, Option-cases, inl, inr, pair_beq_iff,
}
use pacto_bot_api.Prelude.Dict.{
  Distinct, get, insert, remove, get-insert, get-remove, insert-Distinct, remove-Distinct,
}
use pacto_bot_api.Errors.{ok, err}
use pacto_bot_api.Db.Tables.{GroupKey, GroupRow, Tables}
use pacto_bot_api.Db.Groups.{
  rename_row, rename_members, members_collide, rename_group, constraint_failed,
}
use pacto_bot_api.Db.Keys.{Members, IsKeyed}

-- No member row under the key.
abbrev HasNone : GroupKey → Members → Type 0
HasNone key d = (m : String) → get (key, m) d ≡ none

HasNone-tail :
    (key : GroupKey) (k : GroupKey × String) (u : Unit {0}) (d : Members)
    → HasNone key ((k, u) ∷ d)
    → HasNone key d
unfolding get
HasNone-tail key k u d h m = ground (arith, h m)

members_collide-false :
    (old new : GroupKey) (all d : Members) → HasNone new all → members_collide old new all d ≡ false
unfolding members_collide
members_collide-false old new all [] h = refl
members_collide-false old new all (((key, m), u) ∷ rest) h =
    ground (arith, h m, members_collide-false old new all rest h)

get-rename_members :
    (old new : GroupKey) (d : Members) (k : GroupKey) (m : String)
    → HasNone new d
    → old ≢ new
    → get (k, m) (rename_members old new d)
      ≡ (if new == k then get (old, m) d else if old == k then none else get (k, m) d)
unfolding get rename_members
get-rename_members old new [] k m h ne = ground arith
get-rename_members old new (((key, x), u) ∷ rest) k m h ne =
    let ih = get-rename_members old new rest k m (HasNone-tail new (key, x) u rest h) ne in
    ground (
      arith,
      ih,
      h x,
      pair_beq_iff string_eq string_eq key old,
      pair_beq_iff string_eq string_eq key k,
      pair_beq_iff string_eq string_eq new k,
      pair_beq_iff string_eq string_eq old k,
      pair_beq_iff string_eq string_eq key new,
      eq_iff x m,
      eq_iff x x,
    )

rename_members-Distinct :
    (old new : GroupKey) (d : Members)
    → HasNone new d
    → old ≢ new
    → Distinct d
    → Distinct (rename_members old new d)
unfolding rename_members get
rename_members-Distinct old new [] h ne dist = tt
rename_members-Distinct old new (((key, x), u) ∷ rest) h ne dist =
    let tail = HasNone-tail new (key, x) u rest h in
    (
      ground (
        arith,
        get-rename_members old new rest (if key == old then new else key) x tail ne,
        h x,
        tail x,
        dist.0,
        pair_beq_iff string_eq string_eq key old,
        pair_beq_iff string_eq string_eq new key,
        pair_beq_iff string_eq string_eq new new,
        pair_beq_iff string_eq string_eq old key,
        pair_beq_iff string_eq string_eq key new,
        eq_iff x x,
      ),
      rename_members-Distinct old new rest tail ne dist.1,
    )

-- The tables with the group under its new name.
abbrev pub renamed : GroupKey → GroupKey → GroupRow → Tables → Tables
renamed old new row t = record t {
  groups = insert new row (remove old t.groups);
  members = rename_members old new t.members;
}

module _ (b old new : String) (t : Tables) (k : IsKeyed t) (ne : old ≢ new) (row : GroupRow)
    (here : get (b, old) t.groups ≡ some row) where
  keys_differ : ◌≢◌ {A = GroupKey} (b, old) (b, new)
  keys_differ e = ne (ap (λ p. p.1) e)

  nobody : get (b, new) t.groups ≡ none → HasNone (b, new) t.members
  nobody free m = elim (Option-cases (get ((b, new), m) t.members)) [
    | inl e ↦ e
    | inr (tt, e) ↦ absurd (k.owned (b, new) m e free)
  ]

  -- With the new name free for the bot, the renaming goes through.
  pub rename_group_free :
      get (b, new) t.groups ≡ none → rename_group b old new t ≡ ok (renamed (b, old) (b, new) row t)
  unfolding rename_group rename_row
  rename_group_free free = ground (
    arith,
    eq_iff old new,
    members_collide-false (b, old) (b, new) t.members t.members (nobody free),
  )

  -- With it taken, the whole transaction fails.
  pub rename_group_taken :
      (other : GroupRow)
      → get (b, new) t.groups ≡ some other
      → rename_group b old new t ≡ err constraint_failed
  unfolding rename_group rename_row
  rename_group_taken other taken = ground (arith, eq_iff old new)

  renamed-wires :
      get (b, new) t.groups ≡ none
      → (b' n n' : String) (r r' : GroupRow)
      → get (b', n) (insert (b, new) row (remove (b, old) t.groups)) ≡ some r
      → get (b', n') (insert (b, new) row (remove (b, old) t.groups)) ≡ some r'
      → r.wire_id ≡ r'.wire_id
      → n ≡ n'
  renamed-wires free b' n n' r r' h h' same = ground (
    arith,
    get-insert (b, new) (b', n) row (remove (b, old) t.groups),
    get-insert (b, new) (b', n') row (remove (b, old) t.groups),
    get-remove (b, old) (b', n) t.groups,
    get-remove (b, old) (b', n') t.groups,
    eq_iff b b',
    eq_iff new n,
    eq_iff new n',
    eq_iff old n,
    eq_iff old n',
    k.wires b old n' row r',
    k.wires b n old r row,
    k.wires b' n n' r r',
  )

  pub renamed-IsKeyed : get (b, new) t.groups ≡ none → IsKeyed (renamed (b, old) (b, new) row t)
  renamed-IsKeyed free = record {
    names =
        insert-Distinct (b, new) row (remove (b, old) t.groups)
          (remove-Distinct (b, old) t.groups k.names);
    rows = rename_members-Distinct (b, old) (b, new) t.members (nobody free) keys_differ k.rows;
    wires = renamed-wires free;
    owned = λ j m h gone. ground (
      arith,
      get-rename_members (b, old) (b, new) t.members j m (nobody free) keys_differ,
      get-insert (b, new) j row (remove (b, old) t.groups),
      get-remove (b, old) j t.groups,
      k.owned j m,
      eq_iff b j.0,
      eq_iff old j.1,
      eq_iff new j.1,
    );
  }

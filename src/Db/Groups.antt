-- ===== src/Db/Groups.antt =====
-- The groups and their members in src/db.rs. A transaction that fails leaves the tables alone, so
-- its result is the new tables or the error.
use pacto_bot_api.Prelude.{
  ℕ, String, Bool, true, false, ◌&&◌, ◌||◌, Option, none, some, List, [], ◌∷◌, string_eq, pair_eq,
  ◌==◌, if◌then◌else◌, format,
}
use pacto_bot_api.Prelude.Dict.{Dict, get, insert, remove}
use pacto_bot_api.Errors.{DaemonError, sqlite, config, Result, ok, err, ◌>>=◌}
use pacto_bot_api.Db.Tables.{GroupKey, GroupRow, Tables}

-- `SELECT group_name FROM mls_groups WHERE bot_id = ?1 AND wire_id = ?2`
unfoldable pub find_wire : String → String → Dict GroupKey GroupRow → Option String
find_wire bot_id wire_id [] = none
find_wire bot_id wire_id (((b, n), row) ∷ rest) =
    if b == bot_id && row.wire_id == wire_id then some n else find_wire bot_id wire_id rest

abbrev pub constraint_failed : DaemonError
constraint_failed = sqlite "UNIQUE constraint failed"

-- `INSERT INTO mls_groups`
unfoldable pub insert_row :
    GroupKey → GroupRow → Dict GroupKey GroupRow → Result (Dict GroupKey GroupRow)
unfolding find_wire
insert_row key row groups = elim (get key groups) [
  | some _ ↦ err constraint_failed
  | none ↦ elim (find_wire key.0 row.wire_id groups) [
    | some _ ↦ err constraint_failed
    | none ↦ ok (insert key row groups)
  ]
]

-- `INSERT OR IGNORE` and `INSERT OR REPLACE` of the members: a row has no column but its key.
unfoldable pub add_members :
    GroupKey
    → List String
    → Dict (GroupKey × String) (Unit {0})
    → Dict (GroupKey × String) (Unit {0})
add_members key [] members = members
add_members key (m ∷ ms) members = add_members key ms (insert (key, m) tt members)

-- `Database::insert_mls_group`, and `insert_mls_group_export`, which differs in `OR REPLACE` only.
unfoldable pub insert_mls_group : GroupKey → GroupRow → List String → Tables → Result Tables
unfolding insert_row add_members
insert_mls_group key row invited t = do
  groups ← insert_row key row t.groups
  ok (record t { groups = groups; members = add_members key invited t.members })

-- Does `UPDATE mls_group_members SET group_name` meet a row that is there?
unfoldable pub members_collide :
    GroupKey
    → GroupKey
    → Dict (GroupKey × String) (Unit {0})
    → Dict (GroupKey × String) (Unit {0})
    → Bool
members_collide old new members [] = false
members_collide old new members (((key, m), _) ∷ rest) =
    (key == old && elim (get (new, m) members) [ none ↦ false | some _ ↦ true ])
    || members_collide old new members rest

-- `UPDATE mls_group_members SET group_name = ?3`
unfoldable pub rename_members :
    GroupKey → GroupKey → Dict (GroupKey × String) (Unit {0}) → Dict (GroupKey × String) (Unit {0})
rename_members old new [] = []
rename_members old new (((key, m), u) ∷ rest) =
    (((if key == old then new else key), m), u) ∷ rename_members old new rest

-- `UPDATE mls_groups SET group_name = ?3` for the one row with the wire id.
unfoldable pub rename_row :
    GroupKey → GroupKey → Dict GroupKey GroupRow → Result (Dict GroupKey GroupRow)
rename_row old new groups = elim (get new groups) [
  | some _ ↦ err constraint_failed
  | none ↦ elim (get old groups) [
    | none ↦ ok groups
    | some row ↦ ok (insert new row (remove old groups))
  ]
]

-- The branch of the reconciliation for a wire id that is there.
unfoldable pub rename_group : String → String → String → Tables → Result Tables
unfolding rename_row members_collide rename_members
rename_group bot_id old new t = if old == new then ok t else do
  groups ← rename_row (bot_id, old) (bot_id, new) t.groups
  if members_collide (bot_id, old) (bot_id, new) t.members t.members
      then err constraint_failed
      else ok (record t {
        groups = groups;
        members = rename_members (bot_id, old) (bot_id, new) t.members;
      })

-- The error for a name that belongs to another wire id.
abbrev pub name_collision : String → String → String → DaemonError
name_collision group_name colliding_wire_id wire_id = config (
    format (
      "MLS group '" ∷ group_name ∷ "' has wire id " ∷ colliding_wire_id ∷ ", but engine reports "
      ∷ wire_id ∷ []))

-- The branch for one that is not.
unfoldable pub insert_reconciled :
    String → String → String → String → List String → Tables → Result Tables
unfolding insert_mls_group
insert_reconciled bot_id bot_npub wire_id group_name invited t =
    elim (get (bot_id, group_name) t.groups) [
      | some row ↦ err (name_collision group_name row.wire_id wire_id)
      | none ↦
          insert_mls_group (bot_id, group_name)
            (record {
              wire_id = wire_id;
              creator_npub = bot_npub;
              relay = "";
              state_lost_at = none;
            })
            invited t
    ]

-- `Database::upsert_mls_group_from_reconciliation`
unfoldable pub upsert_mls_group_from_reconciliation :
    String → String → String → String → List String → Tables → Result Tables
unfolding find_wire rename_group insert_reconciled
upsert_mls_group_from_reconciliation bot_id bot_npub wire_id group_name invited t =
    elim (find_wire bot_id wire_id t.groups) [
      | some existing ↦ rename_group bot_id existing group_name t
      | none ↦ insert_reconciled bot_id bot_npub wire_id group_name invited t
    ]

-- `Database::update_mls_group_invite`
unfoldable pub update_mls_group_invite : GroupKey → String → Tables → Tables × Bool
update_mls_group_invite key recipient t = elim (get key t.groups) [
  | none ↦ (t, false)
  | some _ ↦ (record t { members = insert (key, recipient) tt t.members }, true)
]

-- `Database::is_bot_invited`
unfoldable pub is_bot_invited : GroupKey → String → Tables → Bool
is_bot_invited key recipient t = elim (get (key, recipient) t.members) [
  | none ↦ false
  | some _ ↦ true
]

-- `Database::delete_mls_group_member`
unfoldable pub delete_mls_group_member : GroupKey → String → Tables → Tables × Bool
unfolding is_bot_invited
delete_mls_group_member key recipient t =
    (record t { members = remove (key, recipient) t.members }, is_bot_invited key recipient t)

abbrev pub with_mark : Option ℕ → GroupRow → GroupRow
with_mark at row = record row { state_lost_at = at }

-- `UPDATE mls_groups SET state_lost_at`
unfoldable pub set_state_lost : GroupKey → Option ℕ → Tables → Tables
set_state_lost key at t = elim (get key t.groups) [
  | none ↦ t
  | some row ↦ record t { groups = insert key (with_mark at row) t.groups }
]

-- `DELETE FROM mls_group_members WHERE bot_id = ?1 AND group_name = ?2`
unfoldable pub delete_members :
    GroupKey → Dict (GroupKey × String) (Unit {0}) → Dict (GroupKey × String) (Unit {0})
delete_members key [] = []
delete_members key (((k, m), u) ∷ rest) =
    let kept = delete_members key rest in if k == key then kept else ((k, m), u) ∷ kept

-- `Database::delete_mls_group_by_wire_id`
unfoldable pub delete_mls_group_by_wire_id : String → String → Tables → Tables × Bool
unfolding find_wire delete_members
delete_mls_group_by_wire_id bot_id wire_id t = elim (find_wire bot_id wire_id t.groups) [
  | none ↦ (t, false)
  | some n ↦ (
    record t {
      groups = remove (bot_id, n) t.groups;
      members = delete_members (bot_id, n) t.members;
    },
    true,
  )
]

abbrev mark_of : Option GroupRow → Option ℕ
mark_of none = none
mark_of (some row) = row.state_lost_at

-- `Database::load_mls_group_state_lost_at`
unfoldable pub load_mls_group_state_lost_at : String → String → Tables → Option ℕ
unfolding find_wire
load_mls_group_state_lost_at bot_id wire_id t = elim (find_wire bot_id wire_id t.groups) [
  | none ↦ none
  | some n ↦ mark_of (get (bot_id, n) t.groups)
]

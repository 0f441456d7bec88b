-- ===== src/Db/Runs.antt =====
-- Any run of the operations on groups and members in src/db.rs.
use pacto_bot_api.Prelude.{
  ℕ, String, Option, none, List, [], ◌∷◌, string_eq, pair_eq, ◌==◌, if◌then◌else◌, ◌≡◌, refl, subst,
  arith, eq_iff, Option-cases, inl, inr, pair_beq_iff,
}
use pacto_bot_api.Prelude.Dict.{
  Distinct, get, get-insert, get-remove, insert-Distinct, remove-Distinct,
}
use pacto_bot_api.Errors.{Result, ok, err}
use pacto_bot_api.Db.Tables.{GroupKey, GroupRow, Tables}
use pacto_bot_api.Db.Groups.{
  find_wire, upsert_mls_group_from_reconciliation, insert_mls_group, update_mls_group_invite,
  delete_mls_group_member, set_state_lost, delete_members, delete_mls_group_by_wire_id,
}
use pacto_bot_api.Db.Keys.{Members, IsKeyed, insert_mls_group-IsKeyed}
use pacto_bot_api.Db.Reconciling.{Outcome, upsert_reconciles}

pub data Call : Type 0 where
  inserts : GroupKey → GroupRow → List String → Call
  reconciles : String → String → String → String → List String → Call
  invites removes_member : GroupKey → String → Call
  sets_lost : GroupKey → Option ℕ → Call
  deletes : String → String → Call

-- A transaction that fails leaves the tables as they were.
abbrev after : Tables → Result Tables → Tables
after t (ok t') = t'
after t (err _) = t

unfoldable pub step : Tables → Call → Tables
unfolding insert_mls_group upsert_mls_group_from_reconciliation update_mls_group_invite
    delete_mls_group_member set_state_lost delete_mls_group_by_wire_id
step t (inserts key row ms) = after t (insert_mls_group key row ms t)
step t (reconciles b npub wire name ms) =
    after t (upsert_mls_group_from_reconciliation b npub wire name ms t)
step t (invites key m) = (update_mls_group_invite key m t).0
step t (removes_member key m) = (delete_mls_group_member key m t).0
step t (sets_lost key at) = set_state_lost key at t
step t (deletes b wire) = (delete_mls_group_by_wire_id b wire t).0

unfoldable pub run : Tables → List Call → Tables
unfolding step
run t [] = t
run t (c ∷ cs) = run (step t c) cs

get-delete_members :
    (key k : GroupKey) (m : String) (d : Members)
    → get (k, m) (delete_members key d) ≡ (if key == k then none else get (k, m) d)
unfolding get delete_members
get-delete_members key k m [] = ground arith
get-delete_members key k m (((j, x), u) ∷ rest) = ground (
  arith,
  get-delete_members key k m rest,
  pair_beq_iff string_eq string_eq key k,
  pair_beq_iff string_eq string_eq j key,
  pair_beq_iff string_eq string_eq j k,
)

delete_members-Distinct :
    (key : GroupKey) (d : Members) → Distinct d → Distinct (delete_members key d)
unfolding delete_members
delete_members-Distinct key [] a = tt
delete_members-Distinct key (((j, x), u) ∷ rest) a = ground (
  arith,
  get-delete_members key j x rest,
  delete_members-Distinct key rest,
  pair_beq_iff string_eq string_eq j key,
  pair_beq_iff string_eq string_eq key j,
)

invites-IsKeyed :
    (key : GroupKey) (m : String) (t : Tables)
    → IsKeyed t
    → IsKeyed (update_mls_group_invite key m t).0
unfolding update_mls_group_invite
invites-IsKeyed key m t k = elim (Option-cases (get key t.groups)) [
  | inl e ↦ rw (e, update_mls_group_invite) k
  | inr (row, e) ↦
      rw (e, update_mls_group_invite)
        (record {
          names = k.names;
          rows = insert-Distinct (key, m) tt t.members k.rows;
          wires = k.wires;
          owned = λ j x h gone. ground (
            arith,
            get-insert (key, m) (j, x) tt t.members,
            k.owned j x,
            pair_beq_iff string_eq string_eq key j,
          );
        })
]

removes_member-IsKeyed :
    (key : GroupKey) (m : String) (t : Tables)
    → IsKeyed t
    → IsKeyed (delete_mls_group_member key m t).0
unfolding delete_mls_group_member
removes_member-IsKeyed key m t k = record {
  names = k.names;
  rows = remove-Distinct (key, m) t.members k.rows;
  wires = k.wires;
  owned = λ j x h gone. ground (arith, get-remove (key, m) (j, x) t.members, k.owned j x);
}

pub sets_lost-IsKeyed :
    (b name : String) (at : Option ℕ) (t : Tables)
    → IsKeyed t
    → IsKeyed (set_state_lost (b, name) at t)
unfolding set_state_lost
sets_lost-IsKeyed b name at t k = elim (Option-cases (get (b, name) t.groups)) [
  | inl e ↦ rw (e, set_state_lost) k
  | inr (row, e) ↦
      let marked : GroupRow = record row { state_lost_at = at } in
      rw (e, set_state_lost)
        (record {
          names = insert-Distinct (b, name) marked t.groups k.names;
          rows = k.rows;
          wires = λ b' n n' r r' h h' same. ground (
            arith,
            get-insert (b, name) (b', n) marked t.groups,
            get-insert (b, name) (b', n') marked t.groups,
            eq_iff b b',
            eq_iff name n,
            eq_iff name n',
            k.wires b' n n' r r',
            k.wires b' n n' row r',
            k.wires b' n n' r row,
          );
          owned = λ j x h gone. ground (arith, get-insert (b, name) j marked t.groups, k.owned j x);
        })
]

deletes-IsKeyed :
    (b wire : String) (t : Tables) → IsKeyed t → IsKeyed (delete_mls_group_by_wire_id b wire t).0
unfolding delete_mls_group_by_wire_id
deletes-IsKeyed b wire t k = elim (Option-cases (find_wire b wire t.groups)) [
  | inl e ↦ rw (e, delete_mls_group_by_wire_id) k
  | inr (n, e) ↦
      rw (e, delete_mls_group_by_wire_id)
        (record {
          names = remove-Distinct (b, n) t.groups k.names;
          rows = delete_members-Distinct (b, n) t.members k.rows;
          wires = λ b' m m' r r' h h' same. ground (
            arith,
            get-remove (b, n) (b', m) t.groups,
            get-remove (b, n) (b', m') t.groups,
            k.wires b' m m' r r',
          );
          owned = λ j x h gone. ground (
            arith,
            get-delete_members (b, n) j x t.members,
            get-remove (b, n) j t.groups,
            k.owned j x,
          );
        })
]

-- What an `insert` or a reconciliation leaves, whether it worked or not.
after-IsKeyed :
    (t : Tables) (r : Result Tables)
    → IsKeyed t
    → ((t' : Tables) → r ≡ ok t' → IsKeyed t')
    → IsKeyed (after t r)
after-IsKeyed t (ok t') k h = h t' refl
after-IsKeyed t (err e) k h = k

step-IsKeyed : (t : Tables) (c : Call) → IsKeyed t → IsKeyed (step t c)
unfolding step
step-IsKeyed t (inserts key row ms) k =
    after-IsKeyed t (insert_mls_group key row ms t) k
      (λ t' h. insert_mls_group-IsKeyed key row ms t t' h k)
step-IsKeyed t (reconciles b npub wire name ms) k =
    after-IsKeyed t (upsert_mls_group_from_reconciliation b npub wire name ms t) k (λ t' h.
      (subst (Outcome b npub wire name ms t k) h (upsert_reconciles b npub wire name ms t k)).0)
step-IsKeyed t (invites key m) k = invites-IsKeyed key m t k
step-IsKeyed t (removes_member key m) k = removes_member-IsKeyed key m t k
step-IsKeyed t (sets_lost key at) k = sets_lost-IsKeyed key.0 key.1 at t k
step-IsKeyed t (deletes b wire) k = deletes-IsKeyed b wire t k

-- Whatever calls insert, reconcile, mark and delete groups, invite members and remove them, and
-- whether they work or fail, from tables whose keys are in order: no two groups of a bot have one
-- wire id, every group and member row is there once, and every member row has its group.
pub run-IsKeyed : (t : Tables) (cs : List Call) → IsKeyed t → IsKeyed (run t cs)
unfolding run
run-IsKeyed t [] k = k
run-IsKeyed t (c ∷ cs) k = run-IsKeyed (step t c) cs (step-IsKeyed t c k)

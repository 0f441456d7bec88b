-- ===== src/Db/Tests.antt =====
-- A bot in two groups, one of them renamed, and a call of each operation on groups.
use pacto_bot_api.Prelude.{String, none, some, List, [], ◌∷◌, string_eq, pair_eq}
use pacto_bot_api.Prelude.Dict.{get}
use pacto_bot_api.Db.Tables.{GroupRow, Tables}
use pacto_bot_api.Db.Groups.{upsert_mls_group_from_reconciliation}
use pacto_bot_api.Db.Keys.{IsKeyed}
use pacto_bot_api.Db.Reconciling.{Outcome, upsert_reconciles}
use pacto_bot_api.Db.Runs.{
  Call, inserts, reconciles, invites, removes_member, sets_lost, deletes, run, run-IsKeyed,
}

abbrev row : String → GroupRow
row wire = record { wire_id = wire; creator_npub = "npub1"; relay = ""; state_lost_at = none }

abbrev empty : Tables
empty = record { cursors = []; groups = []; members = []; resets = []; reset_admins = [] }

empty-IsKeyed : IsKeyed empty
unfolding get
empty-IsKeyed = record {
  names = tt;
  rows = tt;
  wires = λ b n n' r r' h h' same. cc;
  owned = λ k m h gone. cc;
}

abbrev calls : List Call
calls =
    inserts ("bot", "one") (row "a") ("x" ∷ [])
    ∷ reconciles "bot" "npub1" "b" "two" ("y" ∷ [])
    ∷ invites ("bot", "two") "z"
    ∷ sets_lost ("bot", "one") (some 5)
    ∷ reconciles "bot" "npub1" "a" "three" []
    ∷ removes_member ("bot", "two") "y"
    ∷ deletes "bot" "b"
    ∷ []

run-IsKeyed_example : IsKeyed (run empty calls)
run-IsKeyed_example = run-IsKeyed empty calls empty-IsKeyed

upsert_reconciles_example :
    Outcome "bot" "npub1" "a" "four" []
      (run empty calls)
      (run-IsKeyed empty calls empty-IsKeyed)
      (upsert_mls_group_from_reconciliation "bot" "npub1" "a" "four" [] (run empty calls))
upsert_reconciles_example =
    upsert_reconciles "bot" "npub1" "a" "four" [] (run empty calls)
      (run-IsKeyed empty calls empty-IsKeyed)

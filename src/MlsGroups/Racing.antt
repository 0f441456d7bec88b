-- ===== src/MlsGroups/Racing.antt =====
-- Two invitations of one recipient to one group in src/dispatch.rs, the second while the first is at
-- the engine and the network.
use pacto_bot_api.Prelude.{
  String, true, false, none, some, ◌≡◌, refl, ap, subst, ◌∙◌, string_eq, pair_eq,
}
use pacto_bot_api.Prelude.Dict.{get, get-insert_same}
use pacto_bot_api.Errors.{DaemonError, Result, ok, err}
use pacto_bot_api.Db.Tables.{GroupRow, Tables}
use pacto_bot_api.Db.Groups.{is_bot_invited}
use pacto_bot_api.MlsGroups.State.{World, Env}
use pacto_bot_api.MlsGroups.Waiting.{failed}
use pacto_bot_api.MlsGroups.Preflight.{MlsGroupPreflight}
use pacto_bot_api.MlsGroups.Inviting.{
  reserved, reserve_unless, reserve_in, reserve, invite_block, finish_invite, invite_checked,
  settle_invite,
}
use pacto_bot_api.MlsGroups.Invited.{
  Row, with_member, Reserved, Settled, reserve_lem, finish_invite_lem,
}

module _ {S : Type 0} (env : Env S) (bot_id : String) (pre : MlsGroupPreflight)
    (loads : env.load_mls_group ≡ none) (looks : env.is_bot_invited ≡ none)
    (deletes : env.delete_mls_group_member ≡ none) where
  member_there :
      (t : Tables)
      → is_bot_invited (bot_id, pre.group_name) pre.recipient_npub (with_member env bot_id pre t)
        ≡ true
  unfolding is_bot_invited
  member_there t =
      rw
        (
          get-insert_same ((bot_id, pre.group_name), pre.recipient_npub) tt t.members,
          is_bot_invited,
        )
        refl

  second :
      (w : World S) (row : GroupRow)
      → get (bot_id, pre.group_name) w.tables.groups ≡ some row
      → is_bot_invited (bot_id, pre.group_name) pre.recipient_npub w.tables ≡ true
      → invite_checked env bot_id pre w ≡ (w, ok row.wire_id)
  unfolding invite_checked reserve reserve_in reserve_unless finish_invite
  second w row h there = simp (loads, h, looks, there)

  before_reserving :
      (w w1 : World S) (wire_id : String)
      → reserve env bot_id pre w ≡ (w1, ok (reserved wire_id))
      → (w1.tables ≡ with_member env bot_id pre w.tables)
        × Row env bot_id pre wire_id false w.tables
  before_reserving w w1 wire_id h =
      subst (Reserved env bot_id pre w.tables) h (reserve_lem env bot_id pre w)

  overtaking :
      (w w1 : World S) (wire_id : String) (row : GroupRow)
      → w1.tables ≡ with_member env bot_id pre w.tables
      → get (bot_id, pre.group_name) w.tables.groups ≡ some row
      → row.wire_id ≡ wire_id
      → invite_checked env bot_id pre w1 ≡ (w1, ok wire_id)
  overtaking w w1 wire_id row same found named =
      second w1 row (ap (λ t. get (bot_id, pre.group_name) t.groups) same ∙ found) (
        ap (is_bot_invited (bot_id, pre.group_name) pre.recipient_npub) same
        ∙ member_there w.tables)
      ∙ ap (λ x. (w1, ok x)) named

  after_error :
      (t : Tables) (out : World S × Result String) (e : DaemonError)
      → Settled env bot_id pre t out
      → out.1 ≡ err e
      → out.0.tables ≡ t
  after_error t (w, ok x) e h stop = cc
  after_error t (w, err _) e h stop = h

  -- The first invitation has reserved its row, and its part at the engine and the network is going to
  -- fail. A second one for the same recipient that comes in between is answered with success and does
  -- nothing; then the first takes the row away again, and the recipient is not invited.
  pub invite_race :
      (w w1 w2 : World S) (wire_id : String) (e : DaemonError)
      → reserve env bot_id pre w ≡ (w1, ok (reserved wire_id))
      → invite_block env bot_id pre wire_id w1 ≡ (w2, failed e)
      → (invite_checked env bot_id pre w1 ≡ (w1, ok wire_id))
        × ((finish_invite env bot_id pre (reserved wire_id) w1).1 ≡ err e)
        × (is_bot_invited
              (bot_id, pre.group_name)
              pre.recipient_npub
              (finish_invite env bot_id pre (reserved wire_id) w1).0.tables
            ≡ false)
  unfolding finish_invite settle_invite
  invite_race w w1 w2 wire_id e h fails =
      let (same, (row, found, named, absent)) = before_reserving w w1 wire_id h in
      let stopped = ap (λ out. (settle_invite env bot_id pre out).1) fails in
      (
        overtaking w w1 wire_id row same found named,
        stopped,
        ap (is_bot_invited (bot_id, pre.group_name) pre.recipient_npub) (
              after_error w.tables (finish_invite env bot_id pre (reserved wire_id) w1) e
                (finish_invite_lem env bot_id pre deletes w.tables (w1, ok (reserved wire_id))
                  (same, (row, found, named, absent)))
                stopped)
            ∙ absent,
      )

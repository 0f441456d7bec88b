-- ===== src/MlsGroups/Invited.antt =====
-- What an invitation to a group in src/dispatch.rs leaves in the tables, however it ends.
use pacto_bot_api.Prelude.{
  String, Bool, true, false, Option, none, some, ◌≡◌, refl, sym, ap, subst, ◌∙◌, ◌⊎◌, inl, inr,
  arith, string_eq, pair_eq,
}
use pacto_bot_api.Prelude.Dict.{get, insert, remove-insert}
use pacto_bot_api.Errors.{DaemonError, Result, ok, err, ok_or, mls_group_not_found}
use pacto_bot_api.Db.Tables.{GroupRow, Tables}
use pacto_bot_api.Db.Groups.{is_bot_invited, update_mls_group_invite, delete_mls_group_member}
use pacto_bot_api.Dispatch.{Dispatch}
use pacto_bot_api.MlsGroups.State.{World, Env, after, unless_failed}
use pacto_bot_api.MlsGroups.Waiting.{Timed, came, failed, expired}
use pacto_bot_api.MlsGroups.Preflight.{MlsGroupPreflight, extract_mls_group_inputs}
use pacto_bot_api.MlsGroups.Inviting.{
  InviteToMlsGroupParams, Reservation, already, reserved, written, reserve_unless, reserve_in,
  reserve, invite_block, roll_back, settle_invite, finish_invite, invite_checked, invite_act,
}
use pacto_bot_api.MlsGroups.Publishing.{invite_block-tables, invite_block-wire_id}

module _ {S : Type 0} (env : Env S) (bot_id : String) (pre : MlsGroupPreflight) where
  -- The group's row, with the recipient's row there or not.
  abbrev pub Row : String → Bool → Tables → Type 0
  Row wire_id invited t =
      (row : GroupRow) × (get (bot_id, pre.group_name) t.groups ≡ some row)
      × (row.wire_id ≡ wire_id)
      × (is_bot_invited (bot_id, pre.group_name) pre.recipient_npub t ≡ invited)

  abbrev pub with_member : Tables → Tables
  with_member t = record t {
    members = insert ((bot_id, pre.group_name), pre.recipient_npub) tt t.members;
  }

  -- What the block under the lock makes of the tables `t`.
  abbrev pub Reserved : Tables → World S × Result Reservation → Type 0
  Reserved t (w, ok (already wire_id)) = (w.tables ≡ t) × Row wire_id true t
  Reserved t (w, ok (reserved wire_id)) = (w.tables ≡ with_member t) × Row wire_id false t
  Reserved t (w, err e) = w.tables ≡ t

  update_there :
      (t : Tables) (row : GroupRow)
      → get (bot_id, pre.group_name) t.groups ≡ some row
      → update_mls_group_invite (bot_id, pre.group_name) pre.recipient_npub t
        ≡ (with_member t, true)
  unfolding update_mls_group_invite
  update_there t row h = rw (h, update_mls_group_invite) refl

  reserving :
      (o : Option DaemonError) (row : GroupRow) (w : World S)
      → get (bot_id, pre.group_name) w.tables.groups ≡ some row
      → is_bot_invited (bot_id, pre.group_name) pre.recipient_npub w.tables ≡ false
      → Reserved w.tables (
          after (unless_failed o w) (λ _ v.
            written env bot_id pre row.wire_id
              (update_mls_group_invite (bot_id, pre.group_name) pre.recipient_npub v.tables)
              v))
  reserving (some e) row w h absent = refl
  reserving none row w h absent = rw (update_there w.tables row h) (refl, (row, h, refl, absent))

  reserve_unless_lem :
      (invited : Bool) (row : GroupRow) (w : World S)
      → get (bot_id, pre.group_name) w.tables.groups ≡ some row
      → is_bot_invited (bot_id, pre.group_name) pre.recipient_npub w.tables ≡ invited
      → Reserved w.tables (reserve_unless env bot_id pre row.wire_id invited w)
  unfolding reserve_unless
  reserve_unless_lem true row w h there = (refl, (row, h, refl, there))
  reserve_unless_lem false row w h absent = reserving env.update_mls_group_invite row w h absent

  reserve_in_lem :
      (row : GroupRow) (w : World S)
      → get (bot_id, pre.group_name) w.tables.groups ≡ some row
      → Reserved w.tables (reserve_in env bot_id pre row w)
  unfolding reserve_in
  reserve_in_lem row w h = by_fault env.is_bot_invited
    where
      by_fault :
          (o : Option DaemonError)
          → Reserved w.tables (
              after (unless_failed o w) (λ _ v.
                reserve_unless env bot_id pre row.wire_id
                  (is_bot_invited (bot_id, pre.group_name) pre.recipient_npub v.tables)
                  v))
      by_fault (some e) = refl
      by_fault none = reserve_unless_lem _ row w h refl

  pub reserve_lem : (w : World S) → Reserved w.tables (reserve env bot_id pre w)
  unfolding reserve
  reserve_lem w = by_fault env.load_mls_group
    where
      by_row :
          (r : Option GroupRow)
          → get (bot_id, pre.group_name) w.tables.groups ≡ r
          → Reserved w.tables
              (after (w, ok_or r mls_group_not_found) (λ row. reserve_in env bot_id pre row))
      by_row none h = refl
      by_row (some row) h = reserve_in_lem row w h

      by_fault :
          (o : Option DaemonError)
          → Reserved w.tables (
              after (unless_failed o w) (λ _ v.
                after
                  (v, ok_or (get (bot_id, pre.group_name) v.tables.groups) mls_group_not_found)
                  (λ row. reserve_in env bot_id pre row)))
      by_fault (some e) = refl
      by_fault none = by_row (get (bot_id, pre.group_name) w.tables.groups) refl

  -- Without the row that was reserved the tables are as they were.
  undone :
      (t : Tables)
      → is_bot_invited (bot_id, pre.group_name) pre.recipient_npub t ≡ false
      → (delete_mls_group_member (bot_id, pre.group_name) pre.recipient_npub (with_member t)).0 ≡ t
  unfolding is_bot_invited delete_mls_group_member
  undone t absent =
      ap (λ ms. record t { members = ms })
        (remove-insert ((bot_id, pre.group_name), pre.recipient_npub) tt t.members (ground arith))

  -- A whole invitation, by its result.
  abbrev pub Settled : Tables → World S × Result String → Type 0
  Settled t (w, ok wire_id) =
      ((w.tables ≡ t) × Row wire_id true t) ⊎ ((w.tables ≡ with_member t) × Row wire_id false t)
  Settled t (w, err e) = w.tables ≡ t

  module _ (deletes : env.delete_mls_group_member ≡ none) where
    rolled_back :
        (t : Tables) (wire_id : String) (w : World S)
        → w.tables ≡ with_member t
        → Row wire_id false t
        → (roll_back env bot_id pre w).tables ≡ t
    unfolding roll_back
    rolled_back t wire_id w same (row, _, _, absent) = rw deletes (
        ap (λ u. (delete_mls_group_member (bot_id, pre.group_name) pre.recipient_npub u).0) same
        ∙ undone t absent)

    settle_invite_lem :
        (t : Tables) (wire_id : String) (out : World S × Timed String)
        → out.0.tables ≡ with_member t
        → Row wire_id false t
        → ((w : World S) (x : String) → out ≡ (w, came x) → x ≡ wire_id)
        → Settled t (settle_invite env bot_id pre out)
    unfolding settle_invite
    settle_invite_lem t wire_id (w, came x) same row named =
        inr (same, subst (λ y. Row y false t) (sym (named w x refl)) row)
    settle_invite_lem t wire_id (w, failed e) same row named = rolled_back t wire_id w same row
    settle_invite_lem t wire_id (w, expired) same row named = rolled_back t wire_id w same row

    pub finish_invite_lem :
        (t : Tables) (out : World S × Result Reservation)
        → Reserved t out
        → Settled t (after out (finish_invite env bot_id pre))
    unfolding finish_invite
    finish_invite_lem t (w, ok (already wire_id)) h = inl h
    finish_invite_lem t (w, ok (reserved wire_id)) (same, row) =
        settle_invite_lem t wire_id (invite_block env bot_id pre wire_id w)
          (invite_block-tables env bot_id pre wire_id w ∙ same) row
          (λ w' x. invite_block-wire_id env bot_id pre wire_id w w' x)
    finish_invite_lem t (w, err e) h = h

    pub invite_checked_lem : (w : World S) → Settled w.tables (invite_checked env bot_id pre w)
    unfolding invite_checked
    invite_checked_lem w = finish_invite_lem w.tables (reserve env bot_id pre w) (reserve_lem w)

module _ {S : Type 0} (env : Env S) (p : InviteToMlsGroupParams) (core : Dispatch) where
  -- What a request makes of the tables `t`, where `inputs` is what was looked up for it.
  abbrev pub Invited : Result MlsGroupPreflight → Tables → World S × Result String → Type 0
  Invited inputs t (w, ok wire_id) =
      (pre : MlsGroupPreflight) × (inputs ≡ ok pre) × Settled env p.bot_id pre t (w, ok wire_id)
  Invited inputs t (w, err e) = w.tables ≡ t

  Settled-Invited :
      (pre : MlsGroupPreflight) (t : Tables) (out : World S × Result String)
      → Settled env p.bot_id pre t out
      → Invited (ok pre) t out
  Settled-Invited pre t (w, ok wire_id) h = (pre, refl, h)
  Settled-Invited pre t (w, err e) h = h

  by_inputs :
      env.delete_mls_group_member ≡ none
      → (w : World S) (r : Result MlsGroupPreflight)
      → Invited r w.tables (after (w, r) (invite_checked env p.bot_id))
  by_inputs deletes w (err e) = refl
  by_inputs deletes w (ok pre) =
      Settled-Invited pre w.tables (invite_checked env p.bot_id pre w)
        (invite_checked_lem env p.bot_id pre deletes w)

  -- Inviting to a group, past the check of the capability, where the database can delete the row
  -- again: on success the reply is the wire id of the group of that name, and the recipient's row is
  -- in the tables, being the only change if it was not there before; after any error, the timeout
  -- included, and whatever step was cut off, the tables are exactly as they were.
  pub invite_act_lem :
      env.delete_mls_group_member ≡ none
      → (w : World S)
      → Invited
          (extract_mls_group_inputs env core p.bot_id p.group_name p.recipient w)
          w.tables
          (invite_act env p core w)
  unfolding invite_act
  invite_act_lem deletes w =
      by_inputs deletes w (extract_mls_group_inputs env core p.bot_id p.group_name p.recipient w)

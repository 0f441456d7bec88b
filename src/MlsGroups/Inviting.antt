-- ===== src/MlsGroups/Inviting.antt =====
-- `Dispatch::do_invite_to_mls_group` of src/dispatch.rs: the member's row is reserved under the
-- group's lock, then the engine and the network do their part, and what failed is rolled back.
use pacto_bot_api.Prelude.{String, Bool, true, false, Option, none, some, string_eq, pair_eq}
use pacto_bot_api.Prelude.Dict.{get}
use pacto_bot_api.Nostr.{Event}
use pacto_bot_api.Errors.{
  Result, ok, err, ok_or, MlsError, from_mls_error, mls_group_not_found, mls_restoration_incomplete,
  operation_timed_out,
}
use pacto_bot_api.Db.Tables.{GroupRow, Tables}
use pacto_bot_api.Db.Groups.{is_bot_invited, update_mls_group_invite, delete_mls_group_member}
use pacto_bot_api.Dispatch.{Dispatch}
use pacto_bot_api.Mls.Engine.{MlsResult}
use pacto_bot_api.Mls.Worker.{removal_in, AddMemberOutcome, add_member, is_group_member}
use pacto_bot_api.MlsGroups.State.{
  World, Env, welcome, evolution, Act, ◌>>=◌, ◌>>◌, done, lift, tables_of, unless_failed, command,
  or_mls_error, relay,
}
use pacto_bot_api.MlsGroups.Waiting as Waiting
use pacto_bot_api.MlsGroups.Waiting.{Timed, came, failed, expired, Wait, await, ignoring}
use pacto_bot_api.MlsGroups.Preflight.{MlsGroupPreflight, extract_mls_group_inputs}
use pacto_bot_api.MlsGroups.Creating.{fetch}

-- `InviteToMlsGroupParams`
pub record InviteToMlsGroupParams : Type 0 where
  pub bot_id : String
  pub group_name : String
  pub recipient : String

-- What the block under the lock comes to: the reply, or a row reserved in the group of a wire id.
pub data Reservation : Type 0 where
  already reserved : String → Reservation

module _ {S : Type 0} (env : Env S) (bot_id : String) (pre : MlsGroupPreflight) where
  abbrev pub written : String → Tables × Bool → Act S Reservation
  written wire_id (t, true) w = (record w { tables = t }, ok (reserved wire_id))
  written wire_id (t, false) w = (record w { tables = t }, err mls_group_not_found)

  -- Whether the recipient's row is there.
  unfoldable pub reserve_unless : String → Bool → Act S Reservation
  unfolding update_mls_group_invite
  reserve_unless wire_id true = done (already wire_id)
  reserve_unless wire_id false = do
    unless_failed env.update_mls_group_invite
    t ← tables_of
    written wire_id (update_mls_group_invite (bot_id, pre.group_name) pre.recipient_npub t)

  -- Past the look-up of the group.
  unfoldable pub reserve_in : GroupRow → Act S Reservation
  unfolding is_bot_invited reserve_unless
  reserve_in row = do
    unless_failed env.is_bot_invited
    t ← tables_of
    reserve_unless row.wire_id (is_bot_invited (bot_id, pre.group_name) pre.recipient_npub t)

  -- The block under the group's lock.
  unfoldable pub reserve : Act S Reservation
  unfolding reserve_in
  reserve = do
    unless_failed env.load_mls_group
    t ← tables_of
    row ← lift (ok_or (get (bot_id, pre.group_name) t.groups) mls_group_not_found)
    reserve_in row

  -- `if let Some(remove_evt) = outcome.remove_evolution_event`
  unfoldable pub publish_removal : Option Event → Wait S (Unit {0})
  unfolding relay
  publish_removal none = Waiting.done tt
  publish_removal (some remove_evt) =
      Waiting.◌>>=◌
        (await (env.send_pace (evolution remove_evt)) (relay env (evolution remove_evt)))
        (λ _. Waiting.done tt)

  -- The arm for a member that was added.
  unfoldable pub publish_addition : String → AddMemberOutcome → Wait S String
  unfolding publish_removal relay
  publish_addition wire_id outcome = Waiting.◌>>◌ (publish_removal outcome.remove_evolution_event) (
      Waiting.◌>>=◌
        (await (env.send_pace (welcome pre.recipient_pk outcome.welcome_rumor))
          (relay env (welcome pre.recipient_pk outcome.welcome_rumor)))
        (λ _.
          Waiting.◌>>=◌
            (await (env.send_pace (evolution outcome.evolution_event))
              (relay env (evolution outcome.evolution_event)))
            (λ _. Waiting.done wire_id)))

  abbrev pub if_member : String → MlsError → Bool → Wait S String
  if_member wire_id e true = Waiting.done wire_id
  if_member wire_id e false = Waiting.fail (from_mls_error e)

  -- `mls.is_group_member(..).await?`
  unfoldable pub ask_member : String → Act S Bool
  unfolding command is_group_member
  ask_member wire_id = do
    member ← command bot_id (is_group_member env.mdk wire_id pre.recipient_pk)
    or_mls_error member

  -- The arms for an error of the engine, by the event of a removal that it carries.
  unfoldable pub after_failure : String → MlsError → Option Event → Wait S String
  unfolding relay ask_member
  after_failure wire_id e (some remove_evt) =
      Waiting.◌>>◌
        (λ w.
          ignoring
            (await (env.send_pace (evolution remove_evt)) (relay env (evolution remove_evt)) w))
        (Waiting.fail (mls_restoration_incomplete pre.recipient_npub))
  after_failure wire_id e none =
      Waiting.◌>>=◌ (await env.member_pace (ask_member wire_id)) (if_member wire_id e)

  -- `match mls.add_member(..).await`
  unfoldable pub after_addition : String → MlsResult AddMemberOutcome → Wait S String
  unfolding publish_addition after_failure
  after_addition wire_id (MlsResult.ok outcome) = publish_addition wire_id outcome
  after_addition wire_id (MlsResult.err e) = after_failure wire_id e (removal_in e)

  -- The block under the timeout.
  unfoldable pub invite_block : String → Wait S String
  unfolding fetch command add_member after_addition
  invite_block wire_id = Waiting.◌>>=◌ (await env.fetch_pace (fetch env pre)) (λ key_package.
      Waiting.◌>>=◌
        (await env.engine_pace
          (command bot_id (add_member env.mdk env.verify wire_id pre.recipient_pk key_package)))
        (after_addition wire_id))

  -- `let _ = self.db.delete_mls_group_member(..)`
  unfoldable pub roll_back : World S → World S
  unfolding delete_mls_group_member
  roll_back w = elim env.delete_mls_group_member [
    | some _ ↦ w
    | none ↦ record w {
      tables = (delete_mls_group_member (bot_id, pre.group_name) pre.recipient_npub w.tables).0;
    }
  ]

  -- The `match` on what the block came to.
  unfoldable pub settle_invite : World S × Timed String → World S × Result String
  unfolding roll_back
  settle_invite (w, came wire_id) = (w, ok wire_id)
  settle_invite (w, failed e) = (roll_back w, err e)
  settle_invite (w, expired) = (roll_back w, err operation_timed_out)

  unfoldable pub finish_invite : Reservation → Act S String
  unfolding invite_block settle_invite
  finish_invite (already wire_id) w = (w, ok wire_id)
  finish_invite (reserved wire_id) w = settle_invite (invite_block wire_id w)

  unfoldable pub invite_checked : Act S String
  unfolding reserve finish_invite
  invite_checked = do reservation ← reserve; finish_invite reservation

module _ {S : Type 0} (env : Env S) where
  -- `do_invite_to_mls_group` past the check of the capability.
  unfoldable pub invite_act : InviteToMlsGroupParams → Dispatch → Act S String
  unfolding extract_mls_group_inputs invite_checked
  invite_act p core = do
    pre ← λ w. (w, extract_mls_group_inputs env core p.bot_id p.group_name p.recipient w)
    invite_checked env p.bot_id pre

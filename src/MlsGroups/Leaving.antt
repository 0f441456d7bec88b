-- ===== src/MlsGroups/Leaving.antt =====
-- The requests of src/dispatch.rs that ask after the members of a group, leave it, delete it here,
-- or repair its admins, each past its gate.
use pacto_bot_api.Prelude.{
  ℕ, String, Bool, true, false, Option, none, some, List, [], ◌∷◌, ◌⊎◌, inl, inr, string_eq,
  pair_eq, format,
}
use pacto_bot_api.Prelude.Dict.{Dict, get}
use pacto_bot_api.Nostr.{PublicKey, Event}
use pacto_bot_api.Errors as Errors
use pacto_bot_api.Errors.{
  DaemonError, Result, ok, err, ok_or, config, nostr, MlsError, from_mls_error, mls_group_not_found,
  mls_group_repair_prerequisite,
}
use pacto_bot_api.Db.Tables.{GroupKey, Tables}
use pacto_bot_api.Db.Groups.{delete_mls_group_by_wire_id}
use pacto_bot_api.Dispatch.{Dispatch}
use pacto_bot_api.Mls.Engine.{MlsResult}
use pacto_bot_api.Mls.Worker.{leave_group, delete_group, repair_group_admins, is_group_member}
use pacto_bot_api.MlsGroups.State.{
  Env, evolution, Act, ◌>>=◌, ◌>>◌, done, lift, tables_of, unless_failed, set_tables, command,
  or_mls_error, relay,
}
use pacto_bot_api.MlsGroups.Preflight.{bot_with_engine}

-- Does a group have a member's row?
unfoldable pub has_members : GroupKey → Dict (GroupKey × String) (Unit {0}) → Bool
has_members key [] = false
has_members key (((k, m), _) ∷ rest) =
    let others = has_members key rest in elim (pair_eq.eqb k key) [ true ↦ true | false ↦ others ]

-- What repair needs first, where the state is lost.
abbrev prerequisite : Bool → String
prerequisite false = "re-creation (this bot was the only known member before state was lost)"
prerequisite true = "restoration via re-invitation by another admin"

unfoldable pub refuse_repair : GroupKey → Tables → Option ℕ → Result (Unit {0})
unfolding has_members
refuse_repair key t none = ok tt
refuse_repair key t (some _) =
    err (mls_group_repair_prerequisite (prerequisite (has_members key t.members)))

abbrev or_bad_npub : String ⊎ String → Result String
or_bad_npub (inl e) = err (nostr (format ("invalid admin npub: " ∷ e ∷ [])))
or_bad_npub (inr npub) = ok npub

module _ {S : Type 0} (env : Env S) where
  -- `handle_is_squad_member_inner` turns a missing group into `false`.
  unfoldable pub membership : MlsResult Bool → Act S Bool
  unfolding from_mls_error
  membership (MlsResult.ok member) w = (w, ok member)
  membership (MlsResult.err MlsError.group_not_found) w = (w, ok false)
  membership (MlsResult.err e) w = (
    w,
    err (
        nostr
          (format ("failed to check squad membership: " ∷ env.display (from_mls_error e) ∷ []))),
  )

  unfoldable pub squad_act : String → String → PublicKey → Dispatch → Act S Bool
  unfolding bot_with_engine command is_group_member membership
  squad_act bot_id group_id member core = do
    bot ← λ w. (w, bot_with_engine core w bot_id)
    answer ← command bot_id (is_group_member env.mdk group_id member)
    membership answer

  -- `if let Some(self_demote_event) = &outcome.self_demote_event`
  unfoldable pub publish_demotion : Option Event → Act S (Unit {0})
  unfolding relay
  publish_demotion none = done tt
  publish_demotion (some event) = do id ← relay env (evolution event); done tt

  -- `handle_exit_mls_group_inner`
  unfoldable pub exit_act : String → String → Dispatch → Act S String
  unfolding bot_with_engine command leave_group publish_demotion relay
  exit_act bot_id group_id core = do
    bot ← λ w. (w, bot_with_engine core w bot_id)
    left ← command bot_id (leave_group env.mdk group_id)
    outcome ← or_mls_error left
    publish_demotion outcome.self_demote_event
    id ← relay env (evolution outcome.leave_event)
    done outcome.leave_event.id

  -- `handle_delete_mls_group`
  unfoldable pub delete_act : String → String → Dispatch → Act S Bool
  unfolding bot_with_engine command delete_group delete_mls_group_by_wire_id
  delete_act bot_id group_id core = do
    bot ← λ w. (w, bot_with_engine core w bot_id)
    gone ← command bot_id (delete_group env.mdk group_id)
    deleted ← or_mls_error gone
    unless_failed env.delete_mls_group
    t ← tables_of
    set_tables (delete_mls_group_by_wire_id bot_id group_id t).0
    done deleted

  -- `new_admins.into_iter().map(|pk| pk.to_bech32()).collect()`
  unfoldable pub admin_npubs : List PublicKey → Result (List String)
  admin_npubs [] = ok []
  admin_npubs (pk ∷ pks) =
      Errors.◌>>=◌ (or_bad_npub (env.to_bech32 pk))
        (λ npub. Errors.◌>>=◌ (admin_npubs pks) (λ npubs. ok (npub ∷ npubs)))

  -- `handle_admin_repair_mls_group_admins`
  unfoldable pub repair_act : String → String → Dispatch → Act S (List String)
  unfolding bot_with_engine command repair_group_admins refuse_repair relay admin_npubs
  repair_act bot_id group_name core = do
    bot ← λ w. (w, bot_with_engine core w bot_id)
    unless_failed env.load_mls_group
    t ← tables_of
    row ← lift (ok_or (get (bot_id, group_name) t.groups) mls_group_not_found)
    lift (refuse_repair (bot_id, group_name) t row.state_lost_at)
    repaired ← command bot_id (repair_group_admins env.mdk row.wire_id)
    update ← or_mls_error repaired
    id ← relay env (evolution update.0)
    lift (admin_npubs update.1)

-- ===== src/MlsGroups/Tests.antt =====
-- The requests over MLS groups at a small daemon.
use pacto_bot_api.Prelude.{
  ◌≤◌, String, false, none, some, [], ◌∷◌, ◌≡◌, ◌≢◌, ◌⊎◌, refl, string_eq, pair_eq, contains,
}
use pacto_bot_api.Prelude.Dict.{get}
use pacto_bot_api.Errors.{ok, err, nostr}
use pacto_bot_api.Mls.Worker.{find_by_wire_id, AddMemberOutcome}
use pacto_bot_api.Mls.Sample.{squad, rumor, event_of}
use pacto_bot_api.Db.Groups.{is_bot_invited, update_mls_group_invite}
use pacto_bot_api.Nostr.KeyPackages.{fetch_key_package}
use pacto_bot_api.MlsGroups.Ordered.{publish_addition_lem}
use pacto_bot_api.MlsGroups.State.{evolution, welcome, relay}
use pacto_bot_api.MlsGroups.Names.{validate_group_name, trim_ascii, any_refused, byte_len}
use pacto_bot_api.MlsGroups.Trimmed.{validate_group_name_lem}
use pacto_bot_api.MlsGroups.Preflight.{MlsGroupPreflight, extract_mls_group_inputs}
use pacto_bot_api.MlsGroups.Creating.{CreateMlsGroupParams, fetch, create_act}
use pacto_bot_api.MlsGroups.Creations.{Created, create_act_lem}
use pacto_bot_api.MlsGroups.Inviting.{
  InviteToMlsGroupParams, reserved, reserve, invite_block, invite_checked, finish_invite,
  invite_act, publish_addition, publish_removal, reserve_in, reserve_unless,
}
use pacto_bot_api.MlsGroups.Invited.{Invited, invite_act_lem}
use pacto_bot_api.MlsGroups.Leaving.{exit_act, squad_act}
use pacto_bot_api.MlsGroups.Exits.{Exited, exit_act_lem}
use pacto_bot_api.MlsGroups.Texts.{Sent, group_message_lem}
use pacto_bot_api.MlsGroups.Sending.{text_act, reaction_act}
use pacto_bot_api.MlsGroups.Squads.{squad_act_hides}
use pacto_bot_api.MlsGroups.Callers.{agent_create, run, MayRun}
use pacto_bot_api.MlsGroups.Allowed.{run_gated}
use pacto_bot_api.MlsGroups.Racing.{invite_race}
use pacto_bot_api.MlsGroups.Sample.{core, engine_of, world_of, service, env, cut_off}

abbrev new_group : CreateMlsGroupParams
new_group = record { bot_id = "echo"; group_name = " team "; recipient = "bob"; admins = none }

abbrev invitation : InviteToMlsGroupParams
invitation = record { bot_id = "echo"; group_name = "squad"; recipient = "bob" }

abbrev added : AddMemberOutcome
added = record {
  welcome_rumor = rumor;
  evolution_event = event_of "add";
  remove_evolution_event = some (event_of "remove");
}

abbrev inputs : MlsGroupPreflight
inputs = record {
  creator_pubkey = "bot";
  creator_npub = "npub1echo";
  freshness = 300;
  relays = [];
  group_name = "squad";
  recipient_pk = "bob";
  recipient_npub = "bob";
}

accepts_team : validate_group_name " team " ≡ ok "team"
unfolding validate_group_name
accepts_team = refl

create_act_lem_example :
    Created env new_group core
      (extract_mls_group_inputs env core "echo" " team " "bob" (world_of false))
      (world_of false).tables
      (create_act env new_group core (world_of false))
create_act_lem_example = create_act_lem env new_group core (world_of false)

invite_act_lem_example :
    Invited env invitation core
      (extract_mls_group_inputs env core "echo" "squad" "bob" (world_of false))
      (world_of false).tables
      (invite_act env invitation core (world_of false))
invite_act_lem_example = invite_act_lem env invitation core refl (world_of false)

run_gated_example :
    ((run env 5 5 (agent_create (some (ok new_group))) none service).world ≡ service.world)
    ⊎ MayRun 5 5 (agent_create (some (ok new_group))) none service.core
run_gated_example = run_gated env 5 5 (agent_create (some (ok new_group))) none service

exit_act_lem_example :
    Exited env "echo" "wire" (world_of false) (exit_act env "echo" "wire" core (world_of false))
exit_act_lem_example = exit_act_lem env "echo" "wire" core (world_of false)

group_message_lem_example :
    Sent env "echo" "wire"
      (world_of false)
      (text_act env "echo" "wire" "hello" none core (world_of false)).0
    × Sent env "echo" "wire"
        (world_of false)
        (reaction_act env "echo" "wire" "id" "+" core (world_of false)).0
group_message_lem_example =
    group_message_lem env "echo" "wire" "hello" "id" "+" none core (world_of false)

squad_act_hides_example :
    squad_act env "echo" "nowhere" "bob" core (world_of false)
    ≡ squad_act env "echo" "wire" "bob" core (world_of false)
unfolding get find_by_wire_id contains
squad_act_hides_example =
    squad_act_hides env "echo" "bob" core (world_of false) (engine_of false) (squad ∷ []) refl refl
      "nowhere" "wire" squad ("bot" ∷ "ann" ∷ []) refl refl refl refl

validate_group_name_lem_example :
    ("team" ≡ trim_ascii " team ")
    × ◌≢◌ {A = String} "team" ""
    × (byte_len "team" ≤ 128)
    × (any_refused "team" ≡ false)
    × (validate_group_name "team" ≡ ok "team")
validate_group_name_lem_example = validate_group_name_lem " team " "team" accepts_team

-- Bob is invited while the relays refuse, by two handlers at a time.
invite_race_example :
    (invite_checked cut_off "echo" inputs (reserve cut_off "echo" inputs (world_of false)).0
      ≡ ((reserve cut_off "echo" inputs (world_of false)).0, ok "wire"))
    × ((finish_invite cut_off "echo" inputs
          (reserved "wire")
          (reserve cut_off "echo" inputs (world_of false)).0).1
        ≡ err (nostr "no relay"))
    × (is_bot_invited
          ("echo", "squad")
          "bob"
          (finish_invite cut_off "echo" inputs
            (reserved "wire")
            (reserve cut_off "echo" inputs (world_of false)).0).0.tables
        ≡ false)
unfolding reserve reserve_in reserve_unless get is_bot_invited update_mls_group_invite invite_block
    fetch fetch_key_package
invite_race_example =
    invite_race cut_off "echo" inputs refl refl refl (world_of false)
      (reserve cut_off "echo" inputs (world_of false)).0
      (reserve cut_off "echo" inputs (world_of false)).0 "wire" (nostr "no relay") refl refl

publish_addition_lem_example :
    ◌≡◌ {A = String} "wire" "wire"
    × ((publish_addition env "echo" inputs "wire" added (world_of false)).0.relayed
        ≡ evolution (event_of "add") ∷ welcome "bob" rumor ∷ evolution (event_of "remove") ∷ [])
unfolding publish_addition publish_removal relay
publish_addition_lem_example =
    publish_addition_lem env "echo" inputs "wire" "wire" added (world_of false)
      (publish_addition env "echo" inputs "wire" added (world_of false)).0 refl

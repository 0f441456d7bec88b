-- ===== src/MlsGroups/Creating.antt =====
-- `Dispatch::do_create_mls_group` of src/dispatch.rs, and the two requests that lead to it.
use pacto_bot_api.Prelude.{
  ℕ, String, Option, none, some, List, [], ◌∷◌, ◌==◌, string_eq, pair_eq, if◌then◌else◌,
}
use pacto_bot_api.Prelude.Dict.{get}
use pacto_bot_api.Nostr.{PublicKey, Event, UnsignedEvent}
use pacto_bot_api.Nostr.KeyPackages.{fetch_key_package}
use pacto_bot_api.Errors.{Result, ok, err, invalid_json_rpc_request, mls_group_already_exists}
use pacto_bot_api.Db.Tables.{GroupRow, Tables}
use pacto_bot_api.Db.Groups.{insert_mls_group}
use pacto_bot_api.Dispatch.{Dispatch}
use pacto_bot_api.Mls.Engine.{GroupConfig}
use pacto_bot_api.Mls.Worker.{create_group, first_of}
use pacto_bot_api.MlsGroups.State.{
  Env, welcome, Act, ◌>>=◌, ◌>>◌, fail, lift, tables_of, unless_failed, set_tables, command,
  or_mls_error, relay,
}
use pacto_bot_api.MlsGroups.Waiting as Waiting
use pacto_bot_api.MlsGroups.Waiting.{Timed, Wait, await, timeout}
use pacto_bot_api.MlsGroups.Preflight.{MlsGroupPreflight, extract_mls_group_inputs, parse_all}

-- `CreateMlsGroupParams`
pub record CreateMlsGroupParams : Type 0 where
  pub bot_id : String
  pub group_name : String
  pub recipient : String
  pub admins : Option (List String)

-- `relays.iter().filter_map(|r| RelayUrl::parse(r).ok())`
unfoldable pub relay_urls : (String → Option String) → List String → List String
relay_urls parse [] = []
relay_urls parse (r ∷ rs) =
    let rest = relay_urls parse rs in elim (parse r) [ none ↦ rest | some url ↦ url ∷ rest ]

abbrev text_or_default : Option String → String
text_or_default none = ""
text_or_default (some s) = s

-- The row that is inserted.
abbrev pub new_row : MlsGroupPreflight → String → GroupRow
new_row pre wire_id = record {
  wire_id = wire_id;
  creator_npub = pre.creator_npub;
  relay = text_or_default (first_of pre.relays);
  state_lost_at = none;
}

-- `load_mls_group(..).is_some()`
unfoldable pub free_name : String → MlsGroupPreflight → Tables → Result (Unit {0})
free_name bot_id pre t = elim (get (bot_id, pre.group_name) t.groups) [
  | none ↦ ok tt
  | some _ ↦ err mls_group_already_exists
]

module _ {S : Type 0} (env : Env S) where
  -- The key package, or the error of the fetch.
  abbrev pub key_package_of : Result (Event × ℕ) → Act S Event
  key_package_of (ok (key_package, _)) w = (w, ok key_package)
  key_package_of (err e) w = (w, err e)

  unfoldable pub fetch : MlsGroupPreflight → Act S Event
  unfolding fetch_key_package
  fetch pre = key_package_of (
      fetch_key_package
        (record {
          verify = env.verify;
          recipient = pre.recipient_pk;
          now = env.now;
          freshness = pre.freshness;
        })
        pre.recipient_npub (env.fetch_events pre.recipient_pk))

  -- `let admin_pubkeys = match admins { .. }`
  unfoldable pub admin_pubkeys : MlsGroupPreflight → Option (List String) → Result (List PublicKey)
  unfolding parse_all
  admin_pubkeys pre (some list) = parse_all env list
  admin_pubkeys pre none = ok (pre.creator_pubkey ∷ pre.recipient_pk ∷ [])

  -- The check under the lock.
  unfoldable pub refuse_existing : String → MlsGroupPreflight → Act S (Unit {0})
  unfolding free_name
  refuse_existing bot_id pre = do
    unless_failed env.load_mls_group
    t ← tables_of
    lift (free_name bot_id pre t)

  -- The `match` on `insert_mls_group`: an insertion of the model fails by a constraint only.
  abbrev inserted : Result Tables → Act S (Unit {0})
  inserted (ok t) = set_tables t
  inserted (err _) = fail mls_group_already_exists

  -- The write that ends the block.
  unfoldable pub insert_group : String → MlsGroupPreflight → String → Act S (Unit {0})
  unfolding insert_mls_group
  insert_group bot_id pre wire_id = do
    unless_failed env.insert_mls_group
    t ← tables_of
    inserted (
        insert_mls_group (bot_id, pre.group_name) (new_row pre wire_id) (pre.recipient_npub ∷ []) t)

  unfoldable pub config_of : MlsGroupPreflight → List PublicKey → GroupConfig
  unfolding relay_urls
  config_of pre admins = record {
    name = pre.group_name;
    relays = relay_urls env.parse_relay_url pre.relays;
    admins = admins;
  }

  -- The command to the engine.
  unfoldable pub new_group :
      String → MlsGroupPreflight → List PublicKey → Event → Act S (String × UnsignedEvent)
  unfolding command create_group config_of
  new_group bot_id pre admins key_package = do
    created ← command bot_id (
        create_group env.mdk env.verify pre.creator_pubkey pre.recipient_pk key_package
          (config_of pre admins))
    or_mls_error created

  -- From the group's welcome on.
  unfoldable pub welcome_and_insert :
      String → MlsGroupPreflight → String × UnsignedEvent → Wait S String
  unfolding relay insert_group
  welcome_and_insert bot_id pre (wire_id, rumor) =
      Waiting.◌>>=◌
        (await (env.send_pace (welcome pre.recipient_pk rumor))
          (relay env (welcome pre.recipient_pk rumor)))
        (λ _.
          Waiting.◌>>◌ (await env.insert_pace (insert_group bot_id pre wire_id))
            (Waiting.done wire_id))

  -- The block under the timeout.
  unfoldable pub create_block : String → MlsGroupPreflight → List PublicKey → Wait S String
  unfolding fetch new_group welcome_and_insert
  create_block bot_id pre admins = Waiting.◌>>=◌ (await env.fetch_pace (fetch pre)) (λ key_package.
      Waiting.◌>>=◌ (await env.engine_pace (new_group bot_id pre admins key_package))
        (welcome_and_insert bot_id pre))

  -- What follows the preflight.
  unfoldable pub create_checked : String → Option (List String) → MlsGroupPreflight → Act S String
  unfolding admin_pubkeys refuse_existing create_block
  create_checked bot_id admins pre =
      if pre.recipient_npub == pre.creator_npub
      then fail (invalid_json_rpc_request "creator cannot be invited to their own group")
      else (do
        admin_keys ← lift (admin_pubkeys pre admins)
        refuse_existing bot_id pre
        λ w. timeout (create_block bot_id pre admin_keys w))

  -- `do_create_mls_group` past the check of the capability.
  unfoldable pub create_act : CreateMlsGroupParams → Dispatch → Act S String
  unfolding extract_mls_group_inputs create_checked
  create_act p core = do
    pre ← λ w. (w, extract_mls_group_inputs env core p.bot_id p.group_name p.recipient w)
    create_checked p.bot_id p.admins pre

-- ===== src/MlsGroups/Requests.antt =====
-- The requests of src/dispatch.rs over MLS groups, from their parameters on: the gate of each, and
-- its act. What `serde_json` makes of the parameters of a structure enters as its result.
use pacto_bot_api.Prelude.{
  ℕ, String, Bool, false, ◌||◌, Option, none, some, List, [], ◌∷◌, ◌⊎◌, inl, inr, format, string_eq,
  if◌then◌else◌,
}
use pacto_bot_api.Nostr.{PublicKey}
use pacto_bot_api.Errors.{Result, ok, err, ok_or, config, handler_not_registered, unauthorized_bot}
use pacto_bot_api.Handlers.{is_authorized}
use pacto_bot_api.Dispatch.{
  Params, Exec, ◌>>=◌, ◌>>◌, done, fail, lift, gets, admit, rate_limit, require_admin_or_self,
  require_mls_agent_capability,
}
use pacto_bot_api.MlsGroups.State.{Service, Env, guarded}
use pacto_bot_api.MlsGroups.Names.{validate_group_name}
use pacto_bot_api.MlsGroups.Creating.{CreateMlsGroupParams, create_act}
use pacto_bot_api.MlsGroups.Inviting.{InviteToMlsGroupParams, invite_act}
use pacto_bot_api.MlsGroups.Sending.{text_act, reaction_act, validate_reaction}
use pacto_bot_api.MlsGroups.Leaving.{squad_act, exit_act, delete_act, repair_act}

-- `params.get(field).and_then(Value::as_str).ok_or_else(..)`, and `required_string`.
unfoldable pub required_string : Params → String → String → Result String
required_string params field method =
    ok_or (params field) (config (format (method ∷ " missing " ∷ field ∷ [])))

unfoldable pub present : {A : Type 0} → Option A → String → Result A
present params method = ok_or params (config (format (method ∷ " missing params" ∷ [])))

-- The check of `ExitMlsGroup`, which takes no rate limit.
unfoldable pub may_exit : Option String → String → Exec String
unfolding is_authorized
may_exit handler_id bot_id = do
  hid ← lift (ok_or handler_id handler_not_registered)
  s ← gets (λ s. s)
  authorized ← lift (is_authorized s.registry hid bot_id "ExitMlsGroup")
  if authorized then done hid else fail unauthorized_bot

-- `unwrap_or(false)`
abbrev or_false : Result Bool → Bool
or_false (ok b) = b
or_false (err _) = false

unfoldable pub may_ask : Option String → String → Exec String
unfolding is_authorized
may_ask handler_id bot_id = do
  hid ← lift (ok_or handler_id handler_not_registered)
  s ← gets (λ s. s)
  if or_false (is_authorized s.registry hid bot_id "ReceiveGroupMessages")
        || or_false (is_authorized s.registry hid bot_id "SendGroupMessages")
      then done hid
      else fail unauthorized_bot

-- The gate of the three requests of an administrator, once they have a bot: the caller is known.
unfoldable pub administer : ℕ → ℕ → Option String → String → Exec (Unit {0})
unfolding rate_limit
administer clock now none bot_id = done tt
administer clock now (some hid) bot_id = do spent ← rate_limit clock now hid bot_id; done tt

-- The gates, with what they read of the parameters.
unfoldable pub admin_gate :
    {P : Type 0} → ℕ → ℕ → String → (P → String) → Option String → Option (Result P) → Exec P
unfolding require_admin_or_self present administer
admin_gate clock now method bot_of caller_id params = do
  require_admin_or_self caller_id none
  value ← lift (present params method)
  p ← lift value
  administer clock now caller_id (bot_of p)
  done p

unfoldable pub text_gate :
    ℕ → ℕ → Option String → Option Params → Exec (String × String × String × Option String)
unfolding required_string present admit
text_gate clock now handler_id params = do
  value ← lift (present params "agent.send_group_message")
  bot_id ← lift (required_string value "bot_id" "agent.send_group_message")
  group_id ← lift (required_string value "group_id" "agent.send_group_message")
  content ← lift (required_string value "content" "agent.send_group_message")
  hid ← admit clock now handler_id bot_id "SendGroupMessages"
  done (bot_id, group_id, content, value "pacto_virtual_bucket")

-- `params` of an agent's request to create a group or to invite, and the check of the capability.
unfoldable pub agent_gate :
    {P : Type 0}
    → ℕ
    → ℕ
    → String
    → String
    → (P → String)
    → Option String
    → Option (Result P)
    → Exec P
unfolding require_mls_agent_capability present
agent_gate clock now method capability bot_of handler_id params = do
  value ← lift (present params method)
  p ← lift value
  require_mls_agent_capability clock now handler_id (bot_of p) capability
  done p

-- What a request that names a bot and a group reads.
unfoldable pub exit_gate : String → Option String → Option Params → Exec (String × String)
unfolding required_string present may_exit
exit_gate method handler_id params = do
  value ← lift (present params method)
  bot_id ← lift (required_string value "bot_id" method)
  group_id ← lift (required_string value "group_id" method)
  hid ← may_exit handler_id bot_id
  done (bot_id, group_id)

abbrev or_bad_key : String ⊎ PublicKey → Result PublicKey
or_bad_key (inl e) = err (config (format ("invalid member_pubkey: " ∷ e ∷ [])))
or_bad_key (inr pk) = ok pk

abbrev or_bad_hex : Option String → Result (Unit {0})
or_bad_hex (some e) = err (config (format ("invalid group_id hex: " ∷ e ∷ [])))
or_bad_hex none = ok tt

module _ {S : Type 0} (env : Env S) (clock now : ℕ) where
  unfoldable pub reaction_gate :
      Option String → Option Params → Exec (String × String × String × String)
  unfolding required_string present admit validate_reaction
  reaction_gate handler_id params = do
    value ← lift (present params "agent.send_group_reaction")
    bot_id ← lift (required_string value "bot_id" "agent.send_group_reaction")
    group_id ← lift (required_string value "group_id" "agent.send_group_reaction")
    target ← lift (required_string value "target_rumor_id" "agent.send_group_reaction")
    emoji ← lift (required_string value "emoji" "agent.send_group_reaction")
    lift (validate_reaction env emoji)
    hid ← admit clock now handler_id bot_id "SendGroupReactions"
    done (bot_id, group_id, target, emoji)

  unfoldable pub squad_gate : Option String → Option Params → Exec (String × String × PublicKey)
  unfolding required_string present may_ask
  squad_gate handler_id params = do
    value ← lift (present params "agent.is_squad_member")
    bot_id ← lift (required_string value "bot_id" "agent.is_squad_member")
    group_id ← lift (required_string value "group_id" "agent.is_squad_member")
    member_pubkey ← lift (required_string value "member_pubkey" "agent.is_squad_member")
    hid ← may_ask handler_id bot_id
    member ← lift (or_bad_key (env.parse_public_key member_pubkey))
    lift (or_bad_hex (env.hex_error group_id))
    done (bot_id, group_id, member)

  -- `RepairMlsGroupAdminsParams`, and the name that is validated.
  unfoldable pub repair_gate :
      Option String → Option (Result (String × String)) → Exec (String × String)
  unfolding admin_gate validate_group_name
  repair_gate caller_id params = do
    p ←
        admin_gate clock now "admin.repair_mls_group_admins" (λ (p : String × String). p.0)
          caller_id params
    name ← lift (validate_group_name p.1)
    done (p.0, name)

  -- `Dispatch::handle_agent_create_mls_group`
  unfoldable pub handle_agent_create_mls_group :
      Option String → Option (Result CreateMlsGroupParams) → Service S → Service S × Result String
  unfolding agent_gate create_act
  handle_agent_create_mls_group handler_id params =
      guarded
        (agent_gate clock now "agent.create_mls_group" "CreateMlsGroup" (λ p. p.bot_id) handler_id
          params)
        (create_act env)

  -- `Dispatch::handle_admin_create_mls_group`
  unfoldable pub handle_admin_create_mls_group :
      Option String → Option (Result CreateMlsGroupParams) → Service S → Service S × Result String
  unfolding admin_gate create_act
  handle_admin_create_mls_group caller_id params =
      guarded (admin_gate clock now "admin.create_mls_group" (λ p. p.bot_id) caller_id params)
        (create_act env)

  -- `Dispatch::handle_agent_invite_to_mls_group`
  unfoldable pub handle_agent_invite_to_mls_group :
      Option String → Option (Result InviteToMlsGroupParams) → Service S → Service S × Result String
  unfolding agent_gate invite_act
  handle_agent_invite_to_mls_group handler_id params =
      guarded
        (agent_gate clock now "agent.invite_to_mls_group" "InviteToMlsGroup" (λ p. p.bot_id)
          handler_id params)
        (invite_act env)

  -- `Dispatch::handle_admin_invite_to_mls_group`
  unfoldable pub handle_admin_invite_to_mls_group :
      Option String → Option (Result InviteToMlsGroupParams) → Service S → Service S × Result String
  unfolding admin_gate invite_act
  handle_admin_invite_to_mls_group caller_id params =
      guarded (admin_gate clock now "admin.invite_to_mls_group" (λ p. p.bot_id) caller_id params)
        (invite_act env)

  -- `Dispatch::handle_send_group_message`
  unfoldable pub handle_send_group_message :
      Option String → Option Params → Service S → Service S × Result String
  unfolding text_gate text_act
  handle_send_group_message handler_id params =
      guarded (text_gate clock now handler_id params)
        (λ (bot_id, group_id, content, bucket). text_act env bot_id group_id content bucket)

  -- `Dispatch::handle_send_group_reaction`
  unfoldable pub handle_send_group_reaction :
      Option String → Option Params → Service S → Service S × Result String
  unfolding reaction_gate reaction_act
  handle_send_group_reaction handler_id params =
      guarded (reaction_gate handler_id params)
        (λ (bot_id, group_id, target, emoji). reaction_act env bot_id group_id target emoji)

  -- `Dispatch::handle_is_squad_member`
  unfoldable pub handle_is_squad_member :
      Option String → Option Params → Service S → Service S × Result Bool
  unfolding squad_gate squad_act
  handle_is_squad_member handler_id params =
      guarded (squad_gate handler_id params)
        (λ (bot_id, group_id, member). squad_act env bot_id group_id member)

  -- `Dispatch::handle_exit_mls_group`
  unfoldable pub handle_exit_mls_group :
      Option String → Option Params → Service S → Service S × Result String
  unfolding exit_gate exit_act
  handle_exit_mls_group handler_id params =
      guarded (exit_gate "agent.exit_mls_group" handler_id params)
        (λ (bot_id, group_id). exit_act env bot_id group_id)

  -- `Dispatch::handle_delete_mls_group`
  unfoldable pub handle_delete_mls_group :
      Option String → Option Params → Service S → Service S × Result Bool
  unfolding exit_gate delete_act
  handle_delete_mls_group handler_id params =
      guarded (exit_gate "agent.delete_mls_group" handler_id params)
        (λ (bot_id, group_id). delete_act env bot_id group_id)

  -- `Dispatch::handle_admin_repair_mls_group_admins`
  unfoldable pub handle_admin_repair_mls_group_admins :
      Option String
      → Option (Result (String × String))
      → Service S
      → Service S × Result (List String)
  unfolding repair_gate repair_act
  handle_admin_repair_mls_group_admins caller_id params =
      guarded (repair_gate caller_id params) (λ (bot_id, name). repair_act env bot_id name)

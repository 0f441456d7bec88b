-- ===== src/MlsGroups/Preflight.antt =====
-- What the requests of src/dispatch.rs that create a group or invite to one check and look up
-- before they act.
use pacto_bot_api.Prelude.{
  ℕ, String, Option, none, some, List, [], ◌∷◌, ◌⊎◌, inl, inr, string_eq, format,
}
use pacto_bot_api.Prelude.Dict.{get}
use pacto_bot_api.Nostr.{PublicKey}
use pacto_bot_api.Errors.{
  DaemonError, Result, ok, err, ok_or, unknown_bot, mls_engine_unavailable,
  mls_engine_not_configured, invalid_json_rpc_request, nostr, ◌>>=◌,
}
use pacto_bot_api.Dispatch.{Dispatch, Bot}
use pacto_bot_api.MlsGroups.Names.{validate_group_name}
use pacto_bot_api.MlsGroups.State.{World, Env}

-- `BotState::mls_unavailable_error` of src/bot_state.rs
unfoldable pub mls_unavailable_error : Bot → DaemonError
mls_unavailable_error b = elim b.mls_unavailable_reason [
  | some _ ↦ mls_engine_unavailable
  | none ↦ mls_engine_not_configured
]

-- `get_bot_by_id`, and the bot's engine.
unfoldable pub bot_with_engine : {S : Type 0} → Dispatch → World S → String → Result Bot
unfolding mls_unavailable_error
bot_with_engine core w bot_id = do
  bot ← ok_or (get bot_id core.bots) (unknown_bot bot_id)
  elim (get bot_id w.engines) [ none ↦ err (mls_unavailable_error bot) | some _ ↦ ok bot ]

abbrev or_invalid : String → {A : Type 0} → String ⊎ A → Result A
or_invalid message (inl e) = err (invalid_json_rpc_request (format (message ∷ e ∷ [])))
or_invalid message (inr a) = ok a

abbrev or_nostr : String → {A : Type 0} → String ⊎ A → Result A
or_nostr message (inl e) = err (nostr (format (message ∷ e ∷ [])))
or_nostr message (inr a) = ok a

-- `Dispatch::parse_recipient`
unfoldable pub parse_recipient : {S : Type 0} → Env S → String → Result PublicKey
parse_recipient env recipient = or_invalid "invalid recipient: " (env.parse_public_key recipient)

-- `list.iter().map(parse_recipient).collect::<Result<_, _>>()`
unfoldable pub parse_all : {S : Type 0} → Env S → List String → Result (List PublicKey)
unfolding parse_recipient
parse_all env [] = ok []
parse_all env (s ∷ ss) = do pk ← parse_recipient env s; pks ← parse_all env ss; ok (pk ∷ pks)

-- `MlsGroupPreflight`, without the clones of the client and the signer.
pub record MlsGroupPreflight : Type 0 where
  pub creator_pubkey : PublicKey
  pub creator_npub : String
  pub freshness : ℕ
  pub relays : List String
  pub group_name : String
  pub recipient_pk : PublicKey
  pub recipient_npub : String

-- `mls_key_package_freshness_secs.unwrap_or(300)`
abbrev freshness_of : Option ℕ → ℕ
freshness_of none = 300
freshness_of (some secs) = secs

-- `Dispatch::extract_mls_group_inputs`
unfoldable pub extract_mls_group_inputs :
    {S : Type 0} → Env S → Dispatch → String → String → String → World S → Result MlsGroupPreflight
unfolding bot_with_engine parse_recipient validate_group_name
extract_mls_group_inputs env core bot_id group_name recipient w = do
  bot ← bot_with_engine core w bot_id
  name ← validate_group_name group_name
  recipient_pk ← parse_recipient env recipient
  recipient_npub ← or_nostr "invalid recipient npub: " (env.to_bech32 recipient_pk)
  ok (record {
    creator_pubkey = env.public_key bot_id;
    creator_npub = bot.config.npub;
    freshness = freshness_of bot.config.mls_key_package_freshness_secs;
    relays = bot.config.relays;
    group_name = name;
    recipient_pk = recipient_pk;
    recipient_npub = recipient_npub;
  })

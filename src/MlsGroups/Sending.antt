-- ===== src/MlsGroups/Sending.antt =====
-- The requests of src/dispatch.rs that send a text or a reaction to a group, with what
-- src/nostr.rs builds for them.
use pacto_bot_api.Prelude.{
  ℕ, String, ◌||◌, not, Option, none, some, [], ◌∷◌, ◌⊎◌, inl, inr, ◌==◌, string_eq, nat_eq, format,
  if◌then◌else◌,
}
use pacto_bot_api.Nostr.{PublicKey, Event, UnsignedEvent}
use pacto_bot_api.Errors.{
  DaemonError, Result, ok, err, ok_or, config, nostr, MlsError, mls, mls_group_not_found,
  mls_group_state_lost, invalid_reaction,
}
use pacto_bot_api.Errors as Errors
use pacto_bot_api.Db.Groups.{load_mls_group_state_lost_at}
use pacto_bot_api.Dispatch.{Dispatch}
use pacto_bot_api.Mls.Engine.{MlsResult}
use pacto_bot_api.Mls.Worker.{resolve_wire_id, create_group_message}
use pacto_bot_api.MlsGroups.State.{
  Env, group_message, Act, ◌>>=◌, ◌>>◌, done, fail, lift, tables_of, unless_failed, command, relay,
}
use pacto_bot_api.MlsGroups.Preflight.{bot_with_engine}

-- The error of `resolve_wire_id`.
unfoldable pub resolve_error : MlsError → DaemonError
resolve_error MlsError.group_not_found = mls_group_not_found
resolve_error other = mls other

abbrev pub resolved : {S A : Type 0} → (MlsError → DaemonError) → MlsResult A → Act S A
resolved f (MlsResult.ok a) w = (w, ok a)
resolved f (MlsResult.err e) w = (w, err (f e))

abbrev pub if_lost : {S : Type 0} → Option ℕ → Act S (Unit {0})
if_lost none = done tt
if_lost (some _) = fail mls_group_state_lost

module _ {S : Type 0} (env : Env S) where
  -- A group whose state a reset lost is refused.
  unfoldable pub refuse_lost : String → String → Act S (Unit {0})
  unfolding load_mls_group_state_lost_at
  refuse_lost bot_id group_id = do
    unless_failed env.load_state_lost_at
    t ← tables_of
    if_lost (load_mls_group_state_lost_at bot_id group_id t)

  -- The engine's id of the group, once the bot has an engine.
  unfoldable pub resolve : Dispatch → String → String → Act S String
  unfolding bot_with_engine command resolve_wire_id resolve_error
  resolve core bot_id group_id = do
    bot ← λ w. (w, bot_with_engine core w bot_id)
    id ← command bot_id (resolve_wire_id env.mdk group_id)
    resolved resolve_error id

  -- `NostrClient::build_group_text_rumor`
  unfoldable pub build_group_text_rumor : PublicKey → String → Option String → UnsignedEvent
  build_group_text_rumor sender content bucket = record {
    pubkey = sender;
    created_at = env.now;
    kind = 14;
    tags = [];
    content = elim bucket [ none ↦ content | some b ↦ env.envelope content b ];
  }

  abbrev parsed_target : String ⊎ String → Result String
  parsed_target (inl e) = err (nostr (format ("invalid target event id: " ∷ e ∷ [])))
  parsed_target (inr id) = ok id

  -- `NostrClient::build_group_reaction_rumor`
  unfoldable pub build_group_reaction_rumor : PublicKey → String → String → Result UnsignedEvent
  build_group_reaction_rumor sender target emoji =
      Errors.◌>>=◌ (parsed_target (env.parse_event_id target)) (λ id. ok (record {
        pubkey = sender;
        created_at = env.now;
        kind = 7;
        tags = env.event_tag id ∷ [];
        content = emoji;
      }))

  -- The error of the engine where it makes the wrapper.
  abbrev pub creation_error : MlsError → DaemonError
  creation_error e = nostr (format ("MLS group message creation failed: " ∷ env.display_mls e ∷ []))

  abbrev labelled : String → String ⊎ String → Result String
  labelled what (inl e) = err (nostr (format (what ∷ e ∷ [])))
  labelled what (inr s) = ok s

  -- `sign_unsigned_event`, with the signer of a bot.
  unfoldable pub sign_unsigned_event : String → UnsignedEvent → Result Event
  sign_unsigned_event bot_id u =
      Errors.◌>>=◌ (labelled "signing failed: " (env.sign_event bot_id u)) (λ sig_hex.
        Errors.◌>>=◌ (labelled "invalid signature: " (env.parse_signature sig_hex)) (λ sig.
          ok (record {
            id = env.event_id u;
            pubkey = u.pubkey;
            created_at = u.created_at;
            kind = u.kind;
            tags = u.tags;
            content = u.content;
            sig = sig;
          })))

  -- The engine's wrapper as the bot's own event, to be signed with its key.
  unfoldable pub as_own : String → Event → UnsignedEvent
  as_own bot_id wrapper = record {
    pubkey = env.public_key bot_id;
    created_at = wrapper.created_at;
    kind = wrapper.kind;
    tags = wrapper.tags;
    content = wrapper.content;
  }

  -- `NostrClient::send_group_message`
  unfoldable pub send_group_message : String → String → UnsignedEvent → Act S String
  unfolding command create_group_message relay sign_unsigned_event as_own
  send_group_message bot_id group_id rumor = do
    created ← command bot_id (create_group_message env.mdk group_id rumor)
    wrapper ← resolved creation_error created
    signed ← lift (sign_unsigned_event bot_id (as_own bot_id wrapper))
    relay env (group_message bot_id signed)

  -- `handle_send_group_message_inner` past the gate.
  unfoldable pub text_act : String → String → String → Option String → Dispatch → Act S String
  unfolding refuse_lost resolve build_group_text_rumor send_group_message
  text_act bot_id group_id content bucket core = do
    refuse_lost bot_id group_id
    id ← resolve core bot_id group_id
    send_group_message bot_id id (build_group_text_rumor (env.public_key bot_id) content bucket)

  -- `handle_send_group_reaction` past the gate.
  unfoldable pub reaction_act : String → String → String → String → Dispatch → Act S String
  unfolding refuse_lost resolve build_group_reaction_rumor send_group_message
  reaction_act bot_id group_id target emoji core = do
    refuse_lost bot_id group_id
    id ← resolve core bot_id group_id
    rumor ← lift (build_group_reaction_rumor (env.public_key bot_id) target emoji)
    send_group_message bot_id id rumor

  -- `validate_reaction`
  unfoldable pub validate_reaction : String → Result (Unit {0})
  validate_reaction emoji =
      if emoji == "" || not (env.graphemes emoji == 1) then err invalid_reaction else ok tt

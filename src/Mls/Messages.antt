-- ===== src/Mls/Messages.antt =====
-- The commands of src/mls.rs that read a group message and list the groups.
use pacto_bot_api.Prelude.{
  ℕ, String, Bool, false, ◌||◌, Option, none, some, List, [], ◌∷◌, ◌==◌, string_eq,
}
use pacto_bot_api.Nostr.{PublicKey, Event, UnsignedEvent}
use pacto_bot_api.Errors.{MlsError, engine}
use pacto_bot_api.Mls.Engine.{
  Answer, gives, refuses, panics, MdkError, MdkGroup, MessageProcessingResult, application_message,
  proposal, pending_proposal, ignored_proposal, external_join_proposal, commit, unprocessable,
  previously_failed, Mdk, Work, resume, ◌>>=◌, done, ask, ask_read,
}

-- `DecryptedMessage`
pub record DecryptedMessage : Type 0 where
  pub content : String
  pub kind : ℕ
  pub tags : List (List String)
  pub rumor_id : String
  pub group_id : String
  pub author : PublicKey
  pub event_id : String
  pub timestamp : ℕ

-- `GroupMessageOutcome`
pub data GroupMessageOutcome : Type 0 where
  message : DecryptedMessage → GroupMessageOutcome
  publish_evolution : Event → GroupMessageOutcome
  nothing : GroupMessageOutcome

-- `MlsGroupListEntry`
pub record MlsGroupListEntry : Type 0 where
  pub wire_id : String
  pub name : String
  pub members : List PublicKey
  pub admin_pubkeys : List PublicKey
  pub mls_group_id : String

abbrev decrypted : Event → String → String → UnsignedEvent → DecryptedMessage
decrypted event group_id rumor_id msg = record {
  content = msg.content;
  kind = msg.kind;
  tags = msg.tags;
  rumor_id = rumor_id;
  group_id = group_id;
  author = msg.pubkey;
  event_id = event.id;
  timestamp = event.created_at;
}

-- `groups.iter().any(|g| hex::encode(g.nostr_group_id.as_slice()) == group_id)`
unfoldable pub has_wire_id : String → List MdkGroup → Bool
has_wire_id group_id [] = false
has_wire_id group_id (g ∷ gs) = g.nostr_group_id == group_id || has_wire_id group_id gs

module _ {S : Type 0} (mdk : Mdk S) where
  -- The arms of the `match` on `engine.process_message`.
  unfoldable pub after_processing :
      Event
      → String
      → S × Answer MdkError MessageProcessingResult
      → S × Answer MlsError GroupMessageOutcome
  after_processing event group_id (s, gives (application_message rumor_id msg)) =
      (s, gives (message (decrypted event group_id rumor_id msg)))
  after_processing event group_id (s, gives (proposal update)) =
      resume (ask (mdk.merge_pending_commit update.mls_group_id) s)
        (λ _. done (publish_evolution update.evolution_event))
  after_processing event group_id (s, gives pending_proposal) = (s, gives nothing)
  after_processing event group_id (s, gives ignored_proposal) = (s, gives nothing)
  after_processing event group_id (s, gives external_join_proposal) = (s, gives nothing)
  after_processing event group_id (s, gives commit) = (s, gives nothing)
  after_processing event group_id (s, gives unprocessable) = (s, gives nothing)
  after_processing event group_id (s, gives previously_failed) = (s, gives nothing)
  after_processing event group_id (s, refuses _) =
      (s, refuses (engine "failed to process group message"))
  after_processing event group_id (s, panics) = (s, panics)

  -- `MlsCommand::DecryptGroupMessage`; the first argument is `h_tag_content(&event.tags)`.
  unfoldable pub decrypt_group_message : Option String → Event → Work S GroupMessageOutcome
  unfolding after_processing
  decrypt_group_message none event s = (s, refuses (engine "missing group id h tag"))
  decrypt_group_message (some group_id) event s =
      after_processing event group_id (mdk.process_message event s)

  -- `MlsCommand::HasGroupWithWireId`
  unfoldable pub has_group_with_wire_id : String → Work S Bool
  unfolding has_wire_id
  has_group_with_wire_id group_id = do
    groups ← ask_read mdk.get_groups
    done (has_wire_id group_id groups)

  -- The loop of `MlsCommand::ListGroups`.
  unfoldable pub list_entries : List MdkGroup → Work S (List MlsGroupListEntry)
  list_entries [] = done []
  list_entries (g ∷ gs) = do
    members ← ask_read (mdk.get_members g.mls_group_id)
    rest ← list_entries gs
    done (
        record {
          wire_id = g.nostr_group_id;
          name = g.name;
          members = members;
          admin_pubkeys = g.admin_pubkeys;
          mls_group_id = g.mls_group_id;
        }
        ∷ rest)

  -- `MlsCommand::ListGroups`
  unfoldable pub list_groups : Work S (List MlsGroupListEntry)
  unfolding list_entries
  list_groups = do groups ← ask_read mdk.get_groups; list_entries groups

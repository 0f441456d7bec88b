-- ===== src/Mls/Worker.antt =====
-- The commands of the worker thread in src/mls.rs, each the closure it runs over the engine.
use pacto_bot_api.Prelude.{
  String, Bool, true, false, not, ◌&&◌, ◌||◌, Option, none, some, List, [], ◌∷◌, ◌++◌, contains,
  ◌==◌, string_eq, nat_eq, if◌then◌else◌,
}
use pacto_bot_api.Nostr.{PublicKey, Event, UnsignedEvent}
use pacto_bot_api.Errors.{MlsError, engine, restoration_incomplete}
use pacto_bot_api.Mls.Engine.{
  Answer, gives, refuses, panics, MdkError, not_admin, from_mdk_error, MdkGroup, UpdateGroupResult,
  GroupConfig, Mdk, Work, resume, ◌>>=◌, ◌>>◌, done, ok_or, ask, ask_read,
}

-- `groups.iter().find(|g| hex::encode(g.nostr_group_id.as_slice()) == wire_id)`
unfoldable pub find_by_wire_id : String → List MdkGroup → Option MdkGroup
find_by_wire_id wire_id [] = none
find_by_wire_id wire_id (g ∷ gs) =
    if g.nostr_group_id == wire_id then some g else find_by_wire_id wire_id gs

-- `validate_key_package`; `verify` checks the event's id and signature.
unfoldable pub validate_key_package : (Event → Bool) → Event → PublicKey → Bool
validate_key_package verify key_package recipient =
    verify key_package
    && (key_package.kind == 443 || key_package.kind == 30443)
    && not (key_package.content == "")
    && key_package.pubkey == recipient

abbrev pub checked : {S : Type 0} → Bool → Work S (Unit {0})
checked true s = (s, gives tt)
checked false s = (s, refuses MlsError.invalid_key_package)

-- `AddMemberOutcome`
pub record AddMemberOutcome : Type 0 where
  pub welcome_rumor : UnsignedEvent
  pub evolution_event : Event
  pub remove_evolution_event : Option Event

-- `LeaveGroupOutcome`
pub record LeaveGroupOutcome : Type 0 where
  pub self_demote_event : Option Event
  pub leave_event : Event

-- The event of a removal that an error carries.
abbrev pub removal_in : MlsError → Option Event
removal_in (restoration_incomplete remove_evt) = some remove_evt
removal_in _ = none

-- `and_then(|v| v.into_iter().next())`
abbrev pub first_of : {A : Type 0} → List A → Option A
first_of [] = none
first_of (a ∷ _) = some a

abbrev pub first_welcome : Option (List UnsignedEvent) → Option UnsignedEvent
first_welcome none = none
first_welcome (some rumors) = first_of rumors

-- The `match` on the re-add's result and the event of the removal.
unfoldable pub settle_addition :
    {S : Type 0}
    → Option Event
    → S × Answer MlsError (UnsignedEvent × Event)
    → S × Answer MlsError AddMemberOutcome
settle_addition remove (s, gives (welcome_rumor, evolution_event)) = (
  s,
  gives (record {
    welcome_rumor = welcome_rumor;
    evolution_event = evolution_event;
    remove_evolution_event = remove;
  }),
)
settle_addition (some remove_evt) (s, refuses e) = (s, refuses (restoration_incomplete remove_evt))
settle_addition none (s, refuses e) = (s, refuses e)
settle_addition remove (s, panics) = (s, panics)

-- The loop that extends the admins: every member who is not one yet.
unfoldable pub extend_admins : List PublicKey → List PublicKey → List PublicKey
extend_admins admins [] = admins
extend_admins admins (m ∷ ms) =
    extend_admins (if contains admins m then admins else admins ++ (m ∷ [])) ms

-- The `match` on `engine.self_demote`.
unfoldable pub after_demotion :
    {S : Type 0}
    → Work S (Unit {0})
    → S × Answer MdkError UpdateGroupResult
    → S × Answer MlsError (Option Event)
after_demotion merge (s, gives update) = resume (merge s) (λ _. done (some update.evolution_event))
after_demotion merge (s, refuses not_admin) = (s, gives none)
after_demotion merge (s, refuses e) = (s, refuses (from_mdk_error e))
after_demotion merge (s, panics) = (s, panics)

module _ {S : Type 0} (mdk : Mdk S) where
  -- The first lines of most commands.
  unfoldable pub find_group : String → Work S MdkGroup
  unfolding find_by_wire_id
  find_group wire_id = do
    groups ← ask_read mdk.get_groups
    ok_or (find_by_wire_id wire_id groups) MlsError.group_not_found

  -- `MlsCommand::CreateGroup`, after the random bytes of the picture.
  unfoldable pub create_group :
      (Event → Bool) → PublicKey → PublicKey → Event → GroupConfig → Work S (String × UnsignedEvent)
  unfolding validate_key_package
  create_group verify creator recipient key_package config = do
    checked (validate_key_package verify key_package recipient)
    result ← ask (mdk.create_group creator (key_package ∷ []) config)
    welcome_rumor ← ok_or (first_of result.1) (engine "missing welcome rumor")
    done (result.0.nostr_group_id, welcome_rumor)

  -- The removal that precedes a restoration.
  unfoldable pub remove_first : Bool → String → PublicKey → Work S (Option Event)
  remove_first false group_id recipient = done none
  remove_first true group_id recipient = do
    update ← ask (mdk.remove_members group_id (recipient ∷ []))
    ask (mdk.merge_pending_commit group_id)
    done (some update.evolution_event)

  -- `add_result`
  unfoldable pub add_and_merge : String → Event → Work S (UnsignedEvent × Event)
  add_and_merge group_id key_package = do
    update ← ask (mdk.add_members group_id (key_package ∷ []))
    ask (mdk.merge_pending_commit group_id)
    welcome_rumor ← ok_or (first_welcome update.welcome_rumors) (engine "missing welcome rumor")
    done (welcome_rumor, update.evolution_event)

  -- `MlsCommand::AddMember`
  unfoldable pub add_member : (Event → Bool) → String → PublicKey → Event → Work S AddMemberOutcome
  unfolding find_group validate_key_package remove_first add_and_merge settle_addition
  add_member verify wire_id recipient key_package = do
    group ← find_group wire_id
    checked (validate_key_package verify key_package recipient)
    members ← ask_read (mdk.get_members group.mls_group_id)
    remove ← remove_first (contains members recipient) group.mls_group_id recipient
    λ s. settle_addition remove (add_and_merge group.mls_group_id key_package s)

  -- The repair of a group that was found.
  unfoldable pub repair_found : MdkGroup → Work S (Event × List PublicKey)
  unfolding extend_admins
  repair_found group = do
    members ← ask_read (mdk.get_members group.mls_group_id)
    update ← ask (mdk.update_admins group.mls_group_id (extend_admins group.admin_pubkeys members))
    ask (mdk.merge_pending_commit group.mls_group_id)
    done (update.evolution_event, extend_admins group.admin_pubkeys members)

  -- `MlsCommand::RepairGroupAdmins`
  unfoldable pub repair_group_admins : String → Work S (Event × List PublicKey)
  unfolding find_group repair_found
  repair_group_admins wire_id = do group ← find_group wire_id; repair_found group

  -- `MlsCommand::LeaveGroup`
  unfoldable pub leave_group : String → Work S LeaveGroupOutcome
  unfolding find_group after_demotion
  leave_group wire_id = do
    group ← find_group wire_id
    demotion ← λ s.
        after_demotion (ask (mdk.merge_pending_commit group.mls_group_id))
          (mdk.self_demote group.mls_group_id s)
    update ← ask (mdk.leave_group group.mls_group_id)
    done (record { self_demote_event = demotion; leave_event = update.evolution_event })

  -- `MlsCommand::CreateGroupMessage`
  unfoldable pub create_group_message : String → UnsignedEvent → Work S Event
  create_group_message group_id rumor = ask (mdk.create_message group_id rumor)

  -- `MlsCommand::ResolveWireId`
  unfoldable pub resolve_wire_id : String → Work S String
  unfolding find_group
  resolve_wire_id wire_id = do group ← find_group wire_id; done group.mls_group_id

  -- `MlsCommand::IsGroupMember`
  unfoldable pub is_group_member : String → PublicKey → Work S Bool
  unfolding find_group
  is_group_member wire_id member = do
    group ← find_group wire_id
    members ← ask_read (mdk.get_members group.mls_group_id)
    done (contains members member)

  abbrev delete_found : Option MdkGroup → Work S Bool
  delete_found none = done false
  delete_found (some group) = do ask (mdk.delete_group group.mls_group_id); done true

  -- `MlsCommand::DeleteGroup`
  unfoldable pub delete_group : String → Work S Bool
  unfolding find_by_wire_id
  delete_group wire_id = do
    groups ← ask_read mdk.get_groups
    delete_found (find_by_wire_id wire_id groups)

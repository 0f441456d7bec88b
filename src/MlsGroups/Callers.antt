-- ===== src/MlsGroups/Callers.antt =====
-- The requests of src/dispatch.rs over MLS groups that change or send something, and who may make
-- each of them.
use pacto_bot_api.Prelude.{ℕ, String, true, Option, none, some, ◌≡◌, ◌⊎◌, contains, string_eq}
use pacto_bot_api.Errors.{Result, ok, err}
use pacto_bot_api.Handlers.{HandlerRef, get_handler, is_authorized}
use pacto_bot_api.Limits.{check}
use pacto_bot_api.Dispatch.{Dispatch, Params}
use pacto_bot_api.MlsGroups.State.{Service, Env}
use pacto_bot_api.MlsGroups.Creating.{CreateMlsGroupParams}
use pacto_bot_api.MlsGroups.Inviting.{InviteToMlsGroupParams}
use pacto_bot_api.MlsGroups.Requests.{
  handle_agent_create_mls_group, handle_admin_create_mls_group, handle_agent_invite_to_mls_group,
  handle_admin_invite_to_mls_group, handle_send_group_message, handle_send_group_reaction,
  handle_exit_mls_group, handle_delete_mls_group,
}

-- The requests that change the groups, or send to them.
pub data Request : Type 0 where
  agent_create admin_create : Option (Result CreateMlsGroupParams) → Request
  agent_invite admin_invite : Option (Result InviteToMlsGroupParams) → Request
  send_text send_reaction exit delete : Option Params → Request

-- The service after a request.
unfoldable pub run : {S : Type 0} → Env S → ℕ → ℕ → Request → Option String → Service S → Service S
unfolding handle_agent_create_mls_group handle_admin_create_mls_group
    handle_agent_invite_to_mls_group handle_admin_invite_to_mls_group handle_send_group_message
    handle_send_group_reaction handle_exit_mls_group handle_delete_mls_group
run env clock now (agent_create p) h s = (handle_agent_create_mls_group env clock now h p s).0
run env clock now (admin_create p) h s = (handle_admin_create_mls_group env clock now h p s).0
run env clock now (agent_invite p) h s = (handle_agent_invite_to_mls_group env clock now h p s).0
run env clock now (admin_invite p) h s = (handle_admin_invite_to_mls_group env clock now h p s).0
run env clock now (send_text p) h s = (handle_send_group_message env clock now h p s).0
run env clock now (send_reaction p) h s = (handle_send_group_reaction env clock now h p s).0
run env clock now (exit p) h s = (handle_exit_mls_group env clock now h p s).0
run env clock now (delete p) h s = (handle_delete_mls_group env clock now h p s).0

-- A registered handler with a capability for the bot.
abbrev pub Holds : String → String → Option String → Dispatch → Type 0
Holds bot_id capability h s =
    (hid : String) × (h ≡ some hid) × (is_authorized s.registry hid bot_id capability ≡ ok true)

-- One that the rate limiter lets pass too.
abbrev pub Passes : ℕ → ℕ → String → String → Option String → Dispatch → Type 0
Passes clock now bot_id capability h s =
    (hid : String) × (h ≡ some hid)
    × (is_authorized s.registry hid bot_id capability ≡ ok true)
    × ((check clock hid bot_id now s.limiter).1 ≡ true)

-- A registered handler that is an administrator.
abbrev pub Administers : Option String → Dispatch → Type 0
Administers h s =
    (hid : String) × (handler : HandlerRef) × (h ≡ some hid)
    × (get_handler hid s.registry ≡ some handler)
    × (contains handler.capabilities "Admin" ≡ true)

-- The bot that the parameters name.
abbrev pub Named : (String → Type 0) → Option Params → Type 0
Named P none = ⊥
Named P (some value) = (bot_id : String) × (value "bot_id" ≡ some bot_id) × P bot_id

-- The bot that a structure names.
abbrev pub Given : {A : Type 0} → (A → String) → (String → Type 0) → Option (Result A) → Type 0
Given bot_of P none = ⊥
Given bot_of P (some (err _)) = ⊥
Given bot_of P (some (ok p)) = P (bot_of p)

-- Who may have made a request.
abbrev pub MayRun : ℕ → ℕ → Request → Option String → Dispatch → Type 0
MayRun clock now (agent_create p) h s =
    (h ≡ none) ⊎ Given (λ q. q.bot_id) (λ b. Passes clock now b "CreateMlsGroup" h s) p
MayRun clock now (admin_create p) h s = Administers h s
MayRun clock now (agent_invite p) h s =
    (h ≡ none) ⊎ Given (λ q. q.bot_id) (λ b. Passes clock now b "InviteToMlsGroup" h s) p
MayRun clock now (admin_invite p) h s = Administers h s
MayRun clock now (send_text p) h s = Named (λ b. Passes clock now b "SendGroupMessages" h s) p
MayRun clock now (send_reaction p) h s = Named (λ b. Passes clock now b "SendGroupReactions" h s) p
MayRun clock now (exit p) h s = Named (λ b. Holds b "ExitMlsGroup" h s) p
MayRun clock now (delete p) h s = Named (λ b. Holds b "ExitMlsGroup" h s) p

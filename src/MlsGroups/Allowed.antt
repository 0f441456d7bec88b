-- ===== src/MlsGroups/Allowed.antt =====
-- The requests of src/dispatch.rs over MLS groups touch the groups, the engines and the network only
-- for a caller who may make them.
use pacto_bot_api.Prelude.{ℕ, String, Option, ◌≡◌, ◌⊎◌, inl, inr}
use pacto_bot_api.Errors.{ok}
use pacto_bot_api.Dispatch.{Dispatch, Exec}
use pacto_bot_api.MlsGroups.State.{Service, Env, Act, guarded}
use pacto_bot_api.MlsGroups.Creating.{create_act}
use pacto_bot_api.MlsGroups.Inviting.{invite_act}
use pacto_bot_api.MlsGroups.Requests.{
  admin_gate, agent_gate, exit_gate, text_gate, reaction_gate, handle_agent_create_mls_group,
  handle_admin_create_mls_group, handle_agent_invite_to_mls_group, handle_admin_invite_to_mls_group,
  handle_send_group_message, handle_send_group_reaction, handle_exit_mls_group,
  handle_delete_mls_group,
}
use pacto_bot_api.MlsGroups.Callers.{
  Request, agent_create, admin_create, agent_invite, admin_invite, send_text, send_reaction, exit,
  delete, run, MayRun,
}
use pacto_bot_api.MlsGroups.Gated.{
  text_gate_lem, reaction_gate_lem, exit_gate_lem, agent_gate_lem, admin_gate_lem,
}
use pacto_bot_api.MlsGroups.Rules.{guarded-world}

-- What a gate demands holds where the world is touched.
through :
    {S X A : Type 0} (gate : Exec X) (act : X → Dispatch → Act S A) (s : Service S) (P : Type 0)
    → ((core : Dispatch) (x : X) → gate s.core ≡ (core, ok x) → P)
    → ((guarded gate act s).0.world ≡ s.world) ⊎ P
through gate act s P demands = elim (guarded-world gate act s) [
  | inl same ↦ inl same
  | inr (core, x, passed) ↦ inr (demands core x passed)
]

-- Each of these requests leaves the groups' tables, the engines and what was sent as they were, or
-- its caller may make it: to create or invite for a bot, a handler with that capability within the
-- rate, or, without a handler id, anybody; to do so as an administrator, a registered handler with
-- the capability `Admin`; to send, a handler that may send for the bot within the rate; to leave or
-- delete, a handler that may.
pub run_gated :
    {S : Type 0} (env : Env S) (clock now : ℕ) (r : Request) (h : Option String) (s : Service S)
    → ((run env clock now r h s).world ≡ s.world) ⊎ MayRun clock now r h s.core
unfolding run handle_agent_create_mls_group handle_admin_create_mls_group
    handle_agent_invite_to_mls_group handle_admin_invite_to_mls_group handle_send_group_message
    handle_send_group_reaction handle_exit_mls_group handle_delete_mls_group
run_gated env clock now (agent_create p) h s =
    through (agent_gate clock now "agent.create_mls_group" "CreateMlsGroup" (λ q. q.bot_id) h p)
      (create_act env) s _
      (λ core x.
        agent_gate_lem clock now "agent.create_mls_group" "CreateMlsGroup" (λ q. q.bot_id) h p
          s.core core x)
run_gated env clock now (admin_create p) h s =
    through (admin_gate clock now "admin.create_mls_group" (λ q. q.bot_id) h p) (create_act env) s _
      (λ core x.
        admin_gate_lem clock now "admin.create_mls_group" (λ q. q.bot_id) h p s.core core x)
run_gated env clock now (agent_invite p) h s =
    through
      (agent_gate clock now "agent.invite_to_mls_group" "InviteToMlsGroup" (λ q. q.bot_id) h p)
      (invite_act env) s _
      (λ core x.
        agent_gate_lem clock now "agent.invite_to_mls_group" "InviteToMlsGroup" (λ q. q.bot_id) h p
          s.core core x)
run_gated env clock now (admin_invite p) h s =
    through (admin_gate clock now "admin.invite_to_mls_group" (λ q. q.bot_id) h p) (invite_act env)
      s _
      (λ core x.
        admin_gate_lem clock now "admin.invite_to_mls_group" (λ q. q.bot_id) h p s.core core x)
run_gated env clock now (send_text p) h s =
    through (text_gate clock now h p) _ s _ (λ core x. text_gate_lem clock now h p s.core core x)
run_gated env clock now (send_reaction p) h s =
    through (reaction_gate env clock now h p) _ s _
      (λ core x. reaction_gate_lem env clock now h p s.core core x)
run_gated env clock now (exit p) h s =
    through (exit_gate "agent.exit_mls_group" h p) _ s _
      (λ core x. exit_gate_lem "agent.exit_mls_group" h p s.core core x)
run_gated env clock now (delete p) h s =
    through (exit_gate "agent.delete_mls_group" h p) _ s _
      (λ core x. exit_gate_lem "agent.delete_mls_group" h p s.core core x)

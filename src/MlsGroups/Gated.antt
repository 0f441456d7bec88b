-- ===== src/MlsGroups/Gated.antt =====
-- Who can make a request of src/dispatch.rs over MLS groups touch the groups: what the gate of each
-- request lets through.
use pacto_bot_api.Prelude.{
  ℕ, String, Bool, true, false, Option, none, some, ◌≡◌, refl, ◌⊎◌, inl, inr, contains, string_eq,
  if◌then◌else◌,
}
use pacto_bot_api.Errors.{
  Result, ok, err, ok_or, ok_or-eq-ok, handler_not_registered, unauthorized_bot,
}
use pacto_bot_api.Handlers.{get_handler, is_authorized}
use pacto_bot_api.Dispatch.{
  Dispatch, Params, Exec, continue, lift, done, fail, is_target, require_admin_or_self,
  require_mls_agent_capability, admit,
}
use pacto_bot_api.Dispatch.Rules.{continue-eq-ok}
use pacto_bot_api.Dispatch.Gates.{admit-eq-ok}
use pacto_bot_api.MlsGroups.State.{Env}
use pacto_bot_api.MlsGroups.Requests.{
  required_string, present, may_exit, admin_gate, agent_gate, exit_gate, text_gate, reaction_gate,
}
use pacto_bot_api.MlsGroups.Sending.{validate_reaction}
use pacto_bot_api.MlsGroups.Callers.{Holds, Passes, Administers, Named, Given}

admit-Passes :
    (clock now : ℕ) (bot_id capability : String) (h : Option String) (s s' : Dispatch)
    (hid : String)
    → admit clock now h bot_id capability s ≡ (s', ok hid)
    → Passes clock now bot_id capability h s
admit-Passes clock now bot_id capability h s s' hid e =
    let (named, allowed, rate, _) = admit-eq-ok clock now bot_id h capability s s' hid e in
    (hid, named, allowed, rate)

-- What comes after a check that passed, on the same state.
past :
    {A B : Type 0} (r : Result A) (rest : A → Exec B) (s s' : Dispatch) (b : B)
    → continue (lift r s) rest ≡ (s', ok b)
    → (a : A) × (r ≡ ok a) × (rest a s ≡ (s', ok b))
past (ok a) rest s s' b h = (a, refl, h)
past (err e) rest s s' b h = cc

required_string-eq-ok :
    (value : Params) (field method x : String)
    → required_string value field method ≡ ok x
    → value field ≡ some x
unfolding required_string
required_string-eq-ok value field method x h = ok_or-eq-ok (value field) _ h

pub text_gate_lem :
    (clock now : ℕ) (h : Option String) (p : Option Params) (s s' : Dispatch)
    (x : String × String × String × Option String)
    → text_gate clock now h p s ≡ (s', ok x)
    → Named (λ b. Passes clock now b "SendGroupMessages" h s) p
unfolding text_gate present
text_gate_lem clock now h none s s' x e = cc
text_gate_lem clock now h (some value) s s' x e =
    let (bot_id, named, e1) =
      past (required_string value "bot_id" "agent.send_group_message") _ s s' x e in
    let (group_id, _, e2) =
      past (required_string value "group_id" "agent.send_group_message") _ s s' x e1 in
    let (content, _, e3) =
      past (required_string value "content" "agent.send_group_message") _ s s' x e2 in
    let (s1, hid, admitted, _) =
      continue-eq-ok (admit clock now h bot_id "SendGroupMessages" s) _ e3 in
    (
      bot_id,
      required_string-eq-ok value "bot_id" "agent.send_group_message" bot_id named,
      admit-Passes clock now bot_id "SendGroupMessages" h s s1 hid admitted,
    )

pub reaction_gate_lem :
    {S : Type 0} (env : Env S) (clock now : ℕ) (h : Option String) (p : Option Params)
    (s s' : Dispatch) (x : String × String × String × String)
    → reaction_gate env clock now h p s ≡ (s', ok x)
    → Named (λ b. Passes clock now b "SendGroupReactions" h s) p
unfolding reaction_gate present
reaction_gate_lem env clock now h none s s' x e = cc
reaction_gate_lem env clock now h (some value) s s' x e =
    let (bot_id, named, e1) =
      past (required_string value "bot_id" "agent.send_group_reaction") _ s s' x e in
    let (g, _, e2) =
      past (required_string value "group_id" "agent.send_group_reaction") _ s s' x e1 in
    let (t, _, e3) =
      past (required_string value "target_rumor_id" "agent.send_group_reaction") _ s s' x e2 in
    let (emoji, _, e4) =
      past (required_string value "emoji" "agent.send_group_reaction") _ s s' x e3 in
    let (_, _, e5) = past (validate_reaction env emoji) _ s s' x e4 in
    let (s1, hid, admitted, _) =
      continue-eq-ok (admit clock now h bot_id "SendGroupReactions" s) _ e5 in
    (
      bot_id,
      required_string-eq-ok value "bot_id" "agent.send_group_reaction" bot_id named,
      admit-Passes clock now bot_id "SendGroupReactions" h s s1 hid admitted,
    )

may_exit-Holds :
    (h : Option String) (bot_id : String) (s s' : Dispatch) (x : String)
    → may_exit h bot_id s ≡ (s', ok x)
    → Holds bot_id "ExitMlsGroup" h s
unfolding may_exit
may_exit-Holds none bot_id s s' x e = cc
may_exit-Holds (some hid) bot_id s s' x e =
    let (allowed, a, e1) = past (is_authorized s.registry hid bot_id "ExitMlsGroup") _ s s' x e in
    (hid, refl, if_allowed allowed a e1)
  where
    if_allowed :
        (b : Bool)
        → is_authorized s.registry hid bot_id "ExitMlsGroup" ≡ ok b
        → (if b then done hid else fail unauthorized_bot) s ≡ (s', ok x)
        → is_authorized s.registry hid bot_id "ExitMlsGroup" ≡ ok true
    if_allowed true a e = a
    if_allowed false a e = cc

pub exit_gate_lem :
    (method : String) (h : Option String) (p : Option Params) (s s' : Dispatch)
    (x : String × String)
    → exit_gate method h p s ≡ (s', ok x)
    → Named (λ b. Holds b "ExitMlsGroup" h s) p
unfolding exit_gate present
exit_gate_lem method h none s s' x e = cc
exit_gate_lem method h (some value) s s' x e =
    let (bot_id, named, e1) = past (required_string value "bot_id" method) _ s s' x e in
    let (g, _, e2) = past (required_string value "group_id" method) _ s s' x e1 in
    let (s1, hid, held, _) = continue-eq-ok (may_exit h bot_id s) _ e2 in
    (
      bot_id,
      required_string-eq-ok value "bot_id" method bot_id named,
      may_exit-Holds h bot_id s s1 hid held,
    )

capability_lem :
    (clock now : ℕ) (h : Option String) (bot_id capability : String) (s s' : Dispatch)
    → require_mls_agent_capability clock now h bot_id capability s ≡ (s', ok tt)
    → (h ≡ none) ⊎ Passes clock now bot_id capability h s
unfolding require_mls_agent_capability
capability_lem clock now none bot_id capability s s' e = inl refl
capability_lem clock now (some hid) bot_id capability s s' e =
    let (s1, x, admitted, _) =
      continue-eq-ok (admit clock now (some hid) bot_id capability s) _ e in
    inr (admit-Passes clock now bot_id capability (some hid) s s1 x admitted)

pub agent_gate_lem :
    {A : Type 0} (clock now : ℕ) (method capability : String) (bot_of : A → String)
    (h : Option String) (p : Option (Result A)) (s s' : Dispatch) (x : A)
    → agent_gate clock now method capability bot_of h p s ≡ (s', ok x)
    → (h ≡ none) ⊎ Given bot_of (λ b. Passes clock now b capability h s) p
unfolding agent_gate present
agent_gate_lem clock now method capability bot_of h none s s' x e = cc
agent_gate_lem clock now method capability bot_of h (some (err _)) s s' x e = cc
agent_gate_lem clock now method capability bot_of h (some (ok p)) s s' x e =
    let (s1, u, checked, _) =
      continue-eq-ok (require_mls_agent_capability clock now h (bot_of p) capability s) _ e in
    capability_lem clock now h (bot_of p) capability s s1 checked

require_admin-Administers :
    (h : Option String) (s s' : Dispatch)
    → require_admin_or_self h none s ≡ (s', ok tt)
    → Administers h s
unfolding require_admin_or_self is_target
require_admin-Administers none s s' e = cc
require_admin-Administers (some hid) s s' e =
    let (handler, found, e1) =
      past (ok_or (get_handler hid s.registry) handler_not_registered) _ s s' tt e in
    (
      hid,
      handler,
      refl,
      ok_or-eq-ok (get_handler hid s.registry) handler_not_registered found,
      if_admin (contains handler.capabilities "Admin") e1,
    )
  where
    if_admin :
        (b : Bool) → (if b then done tt else fail unauthorized_bot) s ≡ (s', ok tt) → b ≡ true
    if_admin true e = refl
    if_admin false e = cc

pub admin_gate_lem :
    {A : Type 0} (clock now : ℕ) (method : String) (bot_of : A → String) (h : Option String)
    (p : Option (Result A)) (s s' : Dispatch) (x : A)
    → admin_gate clock now method bot_of h p s ≡ (s', ok x)
    → Administers h s
unfolding admin_gate
admin_gate_lem clock now method bot_of h p s s' x e =
    let (s1, u, checked, _) = continue-eq-ok (require_admin_or_self h none s) _ e in
    require_admin-Administers h s s1 checked

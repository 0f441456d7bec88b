-- ===== src/MlsGroups/Squads.antt =====
-- Asking after a member in src/dispatch.rs tells nothing of the groups that the bot is not in.
use pacto_bot_api.Prelude.{
  String, Bool, false, none, some, List, ◌≡◌, refl, sym, ◌∙◌, string_eq, contains,
}
use pacto_bot_api.Prelude.Dict.{get, insert}
use pacto_bot_api.Nostr.{PublicKey}
use pacto_bot_api.Errors.{MlsError, Result, ok, err}
use pacto_bot_api.Dispatch.{Dispatch, Bot}
use pacto_bot_api.Mls.Engine.{gives, refuses, MdkGroup, MlsResult}
use pacto_bot_api.Mls.Worker.{find_by_wire_id, find_group, is_group_member}
use pacto_bot_api.MlsGroups.State.{World, Env, after, command}
use pacto_bot_api.MlsGroups.Preflight.{bot_with_engine}
use pacto_bot_api.MlsGroups.Leaving.{membership, squad_act}

module _ {S : Type 0} (env : Env S) (bot_id : String) (member : PublicKey) (core : Dispatch)
    (w : World S) (s : S) (groups : List MdkGroup) (engine : get bot_id w.engines ≡ some s)
    (lists : env.mdk.get_groups s ≡ gives groups) where
  answers_false : Result Bot → World S × Result Bool
  answers_false r =
      after (w, r) (λ _ v. (record v { engines = insert bot_id s v.engines }, ok false))

  absent_in_engine :
      (wire_id : String)
      → find_by_wire_id wire_id groups ≡ none
      → is_group_member env.mdk wire_id member s ≡ (s, refuses MlsError.group_not_found)
  unfolding is_group_member find_group
  absent_in_engine wire_id absent = simp (lists, absent) refl

  stranger_in_engine :
      (wire_id : String) (group : MdkGroup) (members : List PublicKey)
      → find_by_wire_id wire_id groups ≡ some group
      → env.mdk.get_members group.mls_group_id s ≡ gives members
      → contains members member ≡ false
      → is_group_member env.mdk wire_id member s ≡ (s, gives false)
  unfolding is_group_member find_group
  stranger_in_engine wire_id group members found reads stranger =
      simp (lists, found, reads, stranger) refl

  absent_commanded :
      (wire_id : String)
      → find_by_wire_id wire_id groups ≡ none
      → command bot_id (is_group_member env.mdk wire_id member) w ≡ (
        record w { engines = insert bot_id s w.engines },
        ok (MlsResult.err MlsError.group_not_found),
      )
  unfolding command
  absent_commanded wire_id absent = rw (engine, command) (rw (absent_in_engine wire_id absent) refl)

  stranger_commanded :
      (wire_id : String) (group : MdkGroup) (members : List PublicKey)
      → find_by_wire_id wire_id groups ≡ some group
      → env.mdk.get_members group.mls_group_id s ≡ gives members
      → contains members member ≡ false
      → command bot_id (is_group_member env.mdk wire_id member) w
        ≡ (record w { engines = insert bot_id s w.engines }, ok (MlsResult.ok false))
  unfolding command
  stranger_commanded wire_id group members found reads stranger =
      rw (engine, command) (rw (stranger_in_engine wire_id group members found reads stranger) refl)

  by_answer :
      (wire_id : String) (answer : MlsResult Bool) (r : Result Bot)
      → command bot_id (is_group_member env.mdk wire_id member) w
        ≡ (record w { engines = insert bot_id s w.engines }, ok answer)
      → ((v : World S) → membership env answer v ≡ (v, ok false))
      → after
          (w, r)
          (λ _ v.
            after (command bot_id (is_group_member env.mdk wire_id member) v) (membership env))
        ≡ answers_false r
  unfolding answers_false
  by_answer wire_id answer (err e) h says = refl
  by_answer wire_id answer (ok bot) h says =
      rw h (says (record w { engines = insert bot_id s w.engines }))

  -- The answer on a group that the engine has not, and the answer on one that it has and the member
  -- is not in, are the same, down to the state that is left.
  pub squad_act_hides :
      (missing wire_id : String) (group : MdkGroup) (members : List PublicKey)
      → find_by_wire_id missing groups ≡ none
      → find_by_wire_id wire_id groups ≡ some group
      → env.mdk.get_members group.mls_group_id s ≡ gives members
      → contains members member ≡ false
      → squad_act env bot_id missing member core w ≡ squad_act env bot_id wire_id member core w
  unfolding squad_act membership
  squad_act_hides missing wire_id group members absent found reads stranger =
      by_answer missing (MlsResult.err MlsError.group_not_found) (bot_with_engine core w bot_id)
        (absent_commanded missing absent) (λ v. refl)
      ∙ sym (
          by_answer wire_id (MlsResult.ok false) (bot_with_engine core w bot_id)
            (stranger_commanded wire_id group members found reads stranger) (λ v. refl))

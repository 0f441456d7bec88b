-- ===== src/MlsGroups/Publishing.antt =====
-- The block of an invitation in src/dispatch.rs leaves the tables alone.
use pacto_bot_api.Prelude.{String, Bool, true, false, Option, none, some, ◌≡◌, refl, ◌∙◌, ap, subst}
use pacto_bot_api.Nostr.{Event}
use pacto_bot_api.Errors.{MlsError}
use pacto_bot_api.Mls.Engine.{MlsResult}
use pacto_bot_api.Mls.Worker.{removal_in, AddMemberOutcome, add_member, is_group_member}
use pacto_bot_api.MlsGroups.State.{World, Env, Outgoing, welcome, evolution, command, relay}
use pacto_bot_api.MlsGroups.Waiting.{Timed, came, failed, expired, Wait, await, ignoring, go_on}
use pacto_bot_api.MlsGroups.Preflight.{MlsGroupPreflight}
use pacto_bot_api.MlsGroups.Creating.{fetch}
use pacto_bot_api.MlsGroups.Created.{fetch-tables}
use pacto_bot_api.MlsGroups.Inviting.{
  publish_removal, publish_addition, if_member, ask_member, after_failure, after_addition,
  invite_block,
}
use pacto_bot_api.MlsGroups.Rules.{
  go_on_keeps, await_keeps, ignoring-state, command-tables, asked-tables, relay-tables,
}

module _ {S : Type 0} (env : Env S) (bot_id : String) (pre : MlsGroupPreflight) where
  awaited_relay :
      (out : Outgoing) (w : World S)
      → (await (env.send_pace out) (relay env out) w).0.tables ≡ w.tables
  awaited_relay out w =
      await_keeps (λ v. v.tables) (env.send_pace out) (relay env out) w (relay-tables env out w)

  removal-tables :
      (e : Option Event) (w : World S) → (publish_removal env bot_id pre e w).0.tables ≡ w.tables
  unfolding publish_removal
  removal-tables none w = refl
  removal-tables (some e) w =
      go_on_keeps (λ v. v.tables) (await (env.send_pace (evolution e)) (relay env (evolution e)) w)
        _ (awaited_relay (evolution e) w) (λ _ _. refl)

  addition-tables :
      (wire_id : String) (o : AddMemberOutcome) (w : World S)
      → (publish_addition env bot_id pre wire_id o w).0.tables ≡ w.tables
  unfolding publish_addition
  addition-tables wire_id o w =
      go_on_keeps (λ v. v.tables) (publish_removal env bot_id pre o.remove_evolution_event w) _
        (removal-tables o.remove_evolution_event w)
        (λ _ v.
          go_on_keeps (λ u. u.tables)
            (await (env.send_pace (welcome pre.recipient_pk o.welcome_rumor))
              (relay env (welcome pre.recipient_pk o.welcome_rumor)) v)
            _ (awaited_relay (welcome pre.recipient_pk o.welcome_rumor) v)
            (λ _ u.
              go_on_keeps (λ x. x.tables)
                (await (env.send_pace (evolution o.evolution_event))
                  (relay env (evolution o.evolution_event)) u)
                _ (awaited_relay (evolution o.evolution_event) u) (λ _ _. refl)))

  if_member-tables :
      (wire_id : String) (e : MlsError) (b : Bool) (w : World S)
      → (if_member env bot_id pre wire_id e b w).0.tables ≡ w.tables
  if_member-tables wire_id e true w = refl
  if_member-tables wire_id e false w = refl

  asking-tables :
      (wire_id : String) (e : MlsError) (w : World S)
      → (go_on
          (await env.member_pace (ask_member env bot_id pre wire_id) w)
          (if_member env bot_id pre wire_id e)).0.tables
        ≡ w.tables
  unfolding ask_member
  asking-tables wire_id e w =
      go_on_keeps (λ v. v.tables) (await env.member_pace (ask_member env bot_id pre wire_id) w)
        (if_member env bot_id pre wire_id e)
        (await_keeps (λ v. v.tables) env.member_pace (ask_member env bot_id pre wire_id) w
          (asked-tables bot_id (is_group_member env.mdk wire_id pre.recipient_pk) w))
        (if_member-tables wire_id e)

  failure-tables :
      (wire_id : String) (e : MlsError) (o : Option Event) (w : World S)
      → (after_failure env bot_id pre wire_id e o w).0.tables ≡ w.tables
  unfolding after_failure
  failure-tables wire_id e (some r) w =
      go_on_keeps (λ v. v.tables)
        (ignoring (await (env.send_pace (evolution r)) (relay env (evolution r)) w)) _
        (ap (λ v. v.tables)
            (ignoring-state (await (env.send_pace (evolution r)) (relay env (evolution r)) w))
          ∙ awaited_relay (evolution r) w)
        (λ _ _. refl)
  failure-tables wire_id e none w = asking-tables wire_id e w

  after_addition-tables :
      (wire_id : String) (r : MlsResult AddMemberOutcome) (w : World S)
      → (after_addition env bot_id pre wire_id r w).0.tables ≡ w.tables
  unfolding after_addition
  after_addition-tables wire_id (MlsResult.ok o) w = addition-tables wire_id o w
  after_addition-tables wire_id (MlsResult.err e) w = failure-tables wire_id e (removal_in e) w

  pub invite_block-tables :
      (wire_id : String) (w : World S) → (invite_block env bot_id pre wire_id w).0.tables ≡ w.tables
  unfolding invite_block
  invite_block-tables wire_id w =
      go_on_keeps (λ v. v.tables) (await env.fetch_pace (fetch env pre) w) _
        (await_keeps (λ v. v.tables) env.fetch_pace (fetch env pre) w
          (fetch-tables env bot_id pre w))
        (λ key_package v.
          go_on_keeps (λ u. u.tables)
            (await env.engine_pace
              (command bot_id (add_member env.mdk env.verify wire_id pre.recipient_pk key_package))
              v)
            (after_addition env bot_id pre wire_id)
            (await_keeps (λ u. u.tables) env.engine_pace
              (command bot_id (add_member env.mdk env.verify wire_id pre.recipient_pk key_package))
              v
              (command-tables bot_id
                (add_member env.mdk env.verify wire_id pre.recipient_pk key_package) v))
            (after_addition-tables wire_id))

  -- A block that comes back gives the wire id that it was given.
  abbrev Names : String → World S × Timed String → Type 0
  Names wire_id (w, came x) = x ≡ wire_id
  Names wire_id (w, failed e) = Unit
  Names wire_id (w, expired) = Unit

  go_on-Names :
      {A : Type 0} (wire_id : String) (out : World S × Timed A) (rest : A → Wait S String)
      → ((a : A) (w : World S) → Names wire_id (rest a w))
      → Names wire_id (go_on out rest)
  go_on-Names wire_id (w, came a) rest next = next a w
  go_on-Names wire_id (w, failed e) rest next = tt
  go_on-Names wire_id (w, expired) rest next = tt

  if_member-Names :
      (wire_id : String) (e : MlsError) (b : Bool) (w : World S)
      → Names wire_id (if_member env bot_id pre wire_id e b w)
  if_member-Names wire_id e true w = refl
  if_member-Names wire_id e false w = tt

  failure-Names :
      (wire_id : String) (e : MlsError) (o : Option Event) (w : World S)
      → Names wire_id (after_failure env bot_id pre wire_id e o w)
  unfolding after_failure
  failure-Names wire_id e (some r) w =
      go_on-Names wire_id
        (ignoring (await (env.send_pace (evolution r)) (relay env (evolution r)) w)) _ (λ _ _. tt)
  failure-Names wire_id e none w =
      go_on-Names wire_id (await env.member_pace (ask_member env bot_id pre wire_id) w)
        (if_member env bot_id pre wire_id e) (if_member-Names wire_id e)

  addition-Names :
      (wire_id : String) (r : MlsResult AddMemberOutcome) (w : World S)
      → Names wire_id (after_addition env bot_id pre wire_id r w)
  unfolding after_addition publish_addition
  addition-Names wire_id (MlsResult.ok o) w =
      go_on-Names wire_id (publish_removal env bot_id pre o.remove_evolution_event w) _ (λ _ v.
        go_on-Names wire_id
          (await (env.send_pace (welcome pre.recipient_pk o.welcome_rumor))
            (relay env (welcome pre.recipient_pk o.welcome_rumor)) v)
          _
          (λ _ u.
            go_on-Names wire_id
              (await (env.send_pace (evolution o.evolution_event))
                (relay env (evolution o.evolution_event)) u)
              _ (λ _ _. refl)))
  addition-Names wire_id (MlsResult.err e) w = failure-Names wire_id e (removal_in e) w

  invite_block-Names :
      (wire_id : String) (w : World S) → Names wire_id (invite_block env bot_id pre wire_id w)
  unfolding invite_block
  invite_block-Names wire_id w =
      go_on-Names wire_id (await env.fetch_pace (fetch env pre) w) _ (λ key_package v.
        go_on-Names wire_id
          (await env.engine_pace
            (command bot_id (add_member env.mdk env.verify wire_id pre.recipient_pk key_package)) v)
          (after_addition env bot_id pre wire_id) (addition-Names wire_id))

  pub invite_block-wire_id :
      (wire_id : String) (w w' : World S) (x : String)
      → invite_block env bot_id pre wire_id w ≡ (w', came x)
      → x ≡ wire_id
  invite_block-wire_id wire_id w w' x h = subst (Names wire_id) h (invite_block-Names wire_id w)

-- ===== src/MlsGroups/Ordered.antt =====
-- An invitation in src/dispatch.rs that succeeds publishes what the engine did in the order in which
-- it did it.
use pacto_bot_api.Prelude.{String, Option, none, some, List, ◌∷◌, ◌≡◌, sym, ap, ◌∙◌, inl, inr}
use pacto_bot_api.Nostr.{Event}
use pacto_bot_api.Errors.{Result, ok, err}
use pacto_bot_api.Mls.Worker.{AddMemberOutcome}
use pacto_bot_api.MlsGroups.State.{
  World, Env, Outgoing, welcome, evolution, Pace, in_time, cut_done, cut_undone, Act, relay,
}
use pacto_bot_api.MlsGroups.Waiting.{came, in_block, await}
use pacto_bot_api.MlsGroups.Preflight.{MlsGroupPreflight}
use pacto_bot_api.MlsGroups.Inviting.{publish_removal, publish_addition}
use pacto_bot_api.MlsGroups.Rules.{go_on-eq-came, relay-relayed}

module _ {S : Type 0} (env : Env S) (bot_id : String) (pre : MlsGroupPreflight) where
  in_block-eq-came :
      {A : Type 0} (out : World S × Result A) {w : World S} {a : A}
      → in_block out ≡ (w, came a)
      → out ≡ (w, ok a)
  in_block-eq-came (w, ok a) h = cc
  in_block-eq-came (w, err e) h = cc

  await-eq-came :
      {A : Type 0} (pace : Pace) (step : Act S A) (w : World S) {w' : World S} {a : A}
      → await pace step w ≡ (w', came a)
      → step w ≡ (w', ok a)
  await-eq-came in_time step w h = in_block-eq-came (step w) h
  await-eq-came cut_done step w h = cc
  await-eq-came cut_undone step w h = cc

  relay-eq-ok :
      (out : Outgoing) (w w' : World S) (id : String)
      → relay env out w ≡ (w', ok id)
      → w'.relayed ≡ out ∷ w.relayed
  relay-eq-ok out w w' id h = elim (relay-relayed env out w) [
    | inl (_, (e, refused)) ↦ cc
    | inr (more, _) ↦ sym (ap (λ o. o.0.relayed) h) ∙ more
  ]

  sent_in_time :
      (out : Outgoing) (w w' : World S) (id : String)
      → await (env.send_pace out) (relay env out) w ≡ (w', came id)
      → w'.relayed ≡ out ∷ w.relayed
  sent_in_time out w w' id h =
      relay-eq-ok out w w' id (await-eq-came (env.send_pace out) (relay env out) w h)

  -- The log with the event of the removal, where there is one.
  abbrev pub removed : Option Event → List Outgoing → List Outgoing
  removed none log = log
  removed (some e) log = evolution e ∷ log

  publish_removal-eq-came :
      (e : Option Event) (w w' : World S)
      → publish_removal env bot_id pre e w ≡ (w', came tt)
      → w'.relayed ≡ removed e w.relayed
  unfolding publish_removal
  publish_removal-eq-came none w w' h = sym (ap (λ o. o.0.relayed) h)
  publish_removal-eq-came (some e) w w' h =
      let (w1, id, sent, rest) =
        go_on-eq-came (await (env.send_pace (evolution e)) (relay env (evolution e)) w) _ h in
      sym (ap (λ o. o.0.relayed) rest) ∙ sent_in_time (evolution e) w w1 id sent

  -- Where the engine added or restored a member and the block comes back in time, the event of the
  -- removal, if there was one, went out first, then the welcome to the recipient, then the event of
  -- the addition, and nothing else did.
  pub publish_addition_lem :
      (wire_id x : String) (o : AddMemberOutcome) (w w' : World S)
      → publish_addition env bot_id pre wire_id o w ≡ (w', came x)
      → (x ≡ wire_id)
        × (w'.relayed
            ≡ evolution o.evolution_event
              ∷ (welcome pre.recipient_pk o.welcome_rumor
                  ∷ removed o.remove_evolution_event w.relayed))
  unfolding publish_addition
  publish_addition_lem wire_id x o w w' h =
      let (w1, _, first, h1) =
        go_on-eq-came (publish_removal env bot_id pre o.remove_evolution_event w) _ h in
      let (w2, id2, second, h2) =
        go_on-eq-came
          (await (env.send_pace (welcome pre.recipient_pk o.welcome_rumor))
            (relay env (welcome pre.recipient_pk o.welcome_rumor)) w1)
          _ h1 in
      let (w3, id3, third, h3) =
        go_on-eq-came
          (await (env.send_pace (evolution o.evolution_event))
            (relay env (evolution o.evolution_event)) w2)
          _ h2 in
      let log1 = publish_removal-eq-came o.remove_evolution_event w w1 first in
      let log2 = sent_in_time (welcome pre.recipient_pk o.welcome_rumor) w1 w2 id2 second in
      let log3 = sent_in_time (evolution o.evolution_event) w2 w3 id3 third in
      let last = ap (λ out. out.0.relayed) h3 in
      (
        cc,
        sym last
            ∙ (log3
                ∙ ap (λ l. evolution o.evolution_event ∷ l)
                    (log2 ∙ ap (λ l. welcome pre.recipient_pk o.welcome_rumor ∷ l) log1)),
      )

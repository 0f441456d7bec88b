-- ===== src/MlsGroups/Exits.antt =====
-- Leaving a group in src/dispatch.rs: what is published, and in which order.
use pacto_bot_api.Prelude.{
  String, Option, none, some, List, ◌∷◌, ◌≡◌, refl, sym, ap, subst, ◌∙◌, ◌⊎◌, inl, inr, string_eq,
}
use pacto_bot_api.Prelude.Dict.{get}
use pacto_bot_api.Nostr.{Event}
use pacto_bot_api.Errors.{DaemonError, Result, ok, err, from_mls_error, MlsError}
use pacto_bot_api.Dispatch.{Dispatch, Bot}
use pacto_bot_api.Mls.Engine.{gives, MlsResult}
use pacto_bot_api.Mls.Worker.{LeaveGroupOutcome, leave_group}
use pacto_bot_api.MlsGroups.State.{
  World, Env, Outgoing, evolution, after, command, or_mls_error, relay,
}
use pacto_bot_api.MlsGroups.Preflight.{bot_with_engine}
use pacto_bot_api.MlsGroups.Leaving.{publish_demotion, exit_act}
use pacto_bot_api.MlsGroups.Rules.{relay-relayed, command-relayed, command-cases}

-- The log with the event of the demotion, where there is one.
abbrev pub demoted : Option Event → List Outgoing → List Outgoing
demoted none log = log
demoted (some e) log = evolution e ∷ log

module _ {S : Type 0} (env : Env S) where
  -- What the log `log` becomes when the engine came to `outcome`.
  abbrev Published : List Outgoing → LeaveGroupOutcome → World S × Result String → Type 0
  Published log outcome (w, ok id) =
      (w.relayed ≡ evolution outcome.leave_event ∷ demoted outcome.self_demote_event log)
      × (id ≡ outcome.leave_event.id)
  Published log outcome (w, err e) =
      (w.relayed ≡ log) ⊎ (w.relayed ≡ demoted outcome.self_demote_event log)

  leaving :
      (log : List Outgoing) (outcome : LeaveGroupOutcome) (out : World S × Result String)
      (w : World S)
      → w.relayed ≡ demoted outcome.self_demote_event log
      → ((out.0.relayed ≡ w.relayed) × ((e : DaemonError) × (out.1 ≡ err e)))
        ⊎ ((out.0.relayed ≡ evolution outcome.leave_event ∷ w.relayed)
            × ((id : String) × (out.1 ≡ ok id)))
      → Published log outcome (after out (λ _ v. (v, ok outcome.leave_event.id)))
  leaving log outcome (v, ok id) w told (inl (same, (e, h))) = cc
  leaving log outcome (v, ok id) w told (inr (more, _)) =
      (more ∙ ap (λ l. evolution outcome.leave_event ∷ l) told, refl)
  leaving log outcome (v, err e) w told (inl (same, _)) = inr (same ∙ told)
  leaving log outcome (v, err e) w told (inr (more, (id, h))) = cc

  leave_told :
      (log : List Outgoing) (outcome : LeaveGroupOutcome) (w : World S)
      → w.relayed ≡ demoted outcome.self_demote_event log
      → Published log outcome (
          after
            (relay env (evolution outcome.leave_event) w)
            (λ _ v. (v, ok outcome.leave_event.id)))
  leave_told log outcome w told =
      leaving log outcome (relay env (evolution outcome.leave_event) w) w told
        (relay-relayed env (evolution outcome.leave_event) w)

  demoting :
      (log : List Outgoing) (outcome : LeaveGroupOutcome) (demotion : Event)
      (out : World S × Result String) (w : World S)
      → outcome.self_demote_event ≡ some demotion
      → w.relayed ≡ log
      → ((out.0.relayed ≡ w.relayed) × ((e : DaemonError) × (out.1 ≡ err e)))
        ⊎ ((out.0.relayed ≡ evolution demotion ∷ w.relayed) × ((id : String) × (out.1 ≡ ok id)))
      → Published log outcome (
          after (after out (λ _ v. (v, ok tt))) (λ _ v.
            after
              (relay env (evolution outcome.leave_event) v)
              (λ _ u. (u, ok outcome.leave_event.id))))
  demoting log outcome demotion (v, ok id) w has told (inl (same, (e, h))) = cc
  demoting log outcome demotion (v, ok id) w has told (inr (more, _)) =
      leave_told log outcome v
        (more ∙ (ap (λ l. evolution demotion ∷ l) told ∙ ap (λ d. demoted d log) (sym has)))
  demoting log outcome demotion (v, err e) w has told (inl (same, _)) = inl (same ∙ told)
  demoting log outcome demotion (v, err e) w has told (inr (more, (id, h))) = cc

  publishing :
      (outcome : LeaveGroupOutcome) (d : Option Event) (w : World S)
      → outcome.self_demote_event ≡ d
      → Published w.relayed outcome (
          after (publish_demotion env d w) (λ _ v.
            after
              (relay env (evolution outcome.leave_event) v)
              (λ _ u. (u, ok outcome.leave_event.id))))
  unfolding publish_demotion
  publishing outcome none w h =
      leave_told w.relayed outcome w (ap (λ d. demoted d w.relayed) (sym h))
  publishing outcome (some e) w h =
      demoting w.relayed outcome e (relay env (evolution e) w) w h refl
        (relay-relayed env (evolution e) w)

  -- A whole request: nothing is published, or what the engine came to is.
  abbrev pub Exited : String → String → World S → World S × Result String → Type 0
  Exited bot_id group_id w out =
      ((out.0.relayed ≡ w.relayed) × ((e : DaemonError) × (out.1 ≡ err e)))
      ⊎ ((s : S) × (outcome : LeaveGroupOutcome) × (get bot_id w.engines ≡ some s)
          × ((leave_group env.mdk group_id s).1 ≡ gives outcome)
          × Published w.relayed outcome out)

  after_leave :
      (bot_id group_id : String) (w : World S)
      (out : World S × Result (MlsResult LeaveGroupOutcome))
      → out.0.relayed ≡ w.relayed
      → ((e : MlsError) × (out.1 ≡ ok (MlsResult.err e)))
        ⊎ ((s : S) × (outcome : LeaveGroupOutcome) × (get bot_id w.engines ≡ some s)
            × ((leave_group env.mdk group_id s).1 ≡ gives outcome)
            × (out.1 ≡ ok (MlsResult.ok outcome)))
      → Exited bot_id group_id w (
          after out (λ left v. after (or_mls_error left v) (λ outcome u.
            after (publish_demotion env outcome.self_demote_event u) (λ _ x.
              after
                (relay env (evolution outcome.leave_event) x)
                (λ _ y. (y, ok outcome.leave_event.id))))))
  after_leave bot_id group_id w (v, err e) told (inl (x, h)) = cc
  after_leave bot_id group_id w (v, err e) told (inr (s, o, found, left, h)) = cc
  after_leave bot_id group_id w (v, ok (MlsResult.err e)) told c =
      inl (told, (from_mls_error e, refl))
  after_leave bot_id group_id w (v, ok (MlsResult.ok o)) told (inl (x, h)) = cc
  after_leave bot_id group_id w (v, ok (MlsResult.ok o)) told (inr (s, o', found, left, h)) = inr (
    s,
    o,
    found,
    (left ∙ ap gives (sym (same_outcome o o' h))),
    subst
        (λ log. Published log o (
          after (publish_demotion env o.self_demote_event v) (λ _ x.
            after (relay env (evolution o.leave_event) x) (λ _ y. (y, ok o.leave_event.id)))))
        told (publishing o o.self_demote_event v refl),
  )
    where
      same_outcome : (a b : LeaveGroupOutcome) → ok (MlsResult.ok a) ≡ ok (MlsResult.ok b) → a ≡ b
      same_outcome a b h = cc

  -- Leaving a group, past the gate: nothing is published and the request fails; or the engine left,
  -- and then, before all, the demotion is published where the engine made one, and after it the
  -- leave. The request succeeds exactly if the leave is published, with that event's id.
  pub exit_act_lem :
      (bot_id group_id : String) (core : Dispatch) (w : World S)
      → Exited bot_id group_id w (exit_act env bot_id group_id core w)
  unfolding exit_act
  exit_act_lem bot_id group_id core w = by_bot (bot_with_engine core w bot_id)
    where
      by_bot :
          (r : Result Bot)
          → Exited bot_id group_id w (
              after
                (w, r)
                (λ _ z. after (command bot_id (leave_group env.mdk group_id) z) (λ left v.
                  after (or_mls_error left v) (λ outcome u.
                    after (publish_demotion env outcome.self_demote_event u) (λ _ x.
                      after
                        (relay env (evolution outcome.leave_event) x)
                        (λ _ y. (y, ok outcome.leave_event.id)))))))
      by_bot (err e) = inl (refl, (e, refl))
      by_bot (ok bot) =
          after_leave bot_id group_id w (command bot_id (leave_group env.mdk group_id) w)
            (command-relayed bot_id (leave_group env.mdk group_id) w)
            (command-cases bot_id (leave_group env.mdk group_id) w)

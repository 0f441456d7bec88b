-- ===== src/MlsGroups/Texts.antt =====
-- Sending a text to a group in src/dispatch.rs: only to a group whose state was not lost, and only
-- what the engine made of it.
use pacto_bot_api.Prelude.{
  ℕ, String, Option, none, some, ◌∷◌, ◌≡◌, refl, ap, ◌∙◌, ◌⊎◌, inl, inr, string_eq,
}
use pacto_bot_api.Nostr.{Event, UnsignedEvent}
use pacto_bot_api.Errors.{DaemonError, Result, ok, err, MlsError}
use pacto_bot_api.Db.Groups.{load_mls_group_state_lost_at}
use pacto_bot_api.Dispatch.{Dispatch}
use pacto_bot_api.Mls.Engine.{MlsResult}
use pacto_bot_api.Mls.Worker.{create_group_message, resolve_wire_id}
use pacto_bot_api.MlsGroups.State.{
  World, Env, group_message, Act, after, command, relay, unless_failed,
}
use pacto_bot_api.MlsGroups.Preflight.{bot_with_engine}
use pacto_bot_api.MlsGroups.Sending.{
  resolve_error, resolved, creation_error, sign_unsigned_event, as_own, if_lost, refuse_lost,
  resolve, build_group_text_rumor, send_group_message, text_act, reaction_act,
  build_group_reaction_rumor,
}
use pacto_bot_api.MlsGroups.Rules.{after_keeps, relay-relayed, command-relayed}

resolved-relayed :
    {S A : Type 0} (f : MlsError → DaemonError) (r : MlsResult A) (w : World S)
    → (resolved f r w).0.relayed ≡ w.relayed
resolved-relayed f (MlsResult.ok a) w = refl
resolved-relayed f (MlsResult.err e) w = refl

module _ {S : Type 0} (env : Env S) (bot_id group_id : String) where
  -- Nothing is sent, or a group message is, which the bot signed, for a group that is not marked as
  -- lost.
  abbrev pub Sent : World S → World S → Type 0
  Sent w w' =
      (w'.relayed ≡ w.relayed)
      ⊎ ((load_mls_group_state_lost_at bot_id group_id w.tables ≡ none)
          × ((wrapper signed : Event) × (sign_unsigned_event env bot_id (as_own env bot_id wrapper)
                ≡ ok signed)
              × (w'.relayed ≡ group_message bot_id signed ∷ w.relayed)))

  by_mark :
      {A : Type 0} (w : World S) (rest : Act S A) (mark : Option ℕ)
      → load_mls_group_state_lost_at bot_id group_id w.tables ≡ mark
      → (load_mls_group_state_lost_at bot_id group_id w.tables ≡ none → Sent w (rest w).0)
      → Sent w (after (if_lost mark w) (λ _. rest)).0
  by_mark w rest none h next = next h
  by_mark w rest (some at) h next = inl refl

  past_mark :
      {A : Type 0} (w : World S) (rest : Act S A)
      → (load_mls_group_state_lost_at bot_id group_id w.tables ≡ none → Sent w (rest w).0)
      → Sent w (after (refuse_lost env bot_id group_id w) (λ _. rest)).0
  unfolding refuse_lost
  past_mark {A = A} w rest next = by_fault env.load_state_lost_at
    where
      by_fault :
          (o : Option DaemonError)
          → Sent w
              (after
                (after
                  (unless_failed o w)
                  (λ _ v. if_lost (load_mls_group_state_lost_at bot_id group_id v.tables) v))
                (λ _. rest)).0
      by_fault (some e) = inl refl
      by_fault none =
          by_mark w rest (load_mls_group_state_lost_at bot_id group_id w.tables) refl next

  -- What follows a step that sends nothing.
  after_quiet :
      {A B : Type 0} (w : World S) (out : World S × Result A) (rest : A → Act S B)
      → out.0.relayed ≡ w.relayed
      → ((a : A) (v : World S) → v.relayed ≡ w.relayed → Sent w (rest a v).0)
      → Sent w (after out rest).0
  after_quiet w (v, ok a) rest quiet next = next a v quiet
  after_quiet w (v, err e) rest quiet next = inl quiet

  last_step :
      (w v : World S) (wrapper signed : Event)
      → v.relayed ≡ w.relayed
      → load_mls_group_state_lost_at bot_id group_id w.tables ≡ none
      → sign_unsigned_event env bot_id (as_own env bot_id wrapper) ≡ ok signed
      → Sent w (relay env (group_message bot_id signed) v).0
  last_step w v wrapper signed quiet unmarked by_bot =
      elim (relay-relayed env (group_message bot_id signed) v) [
        | inl (same, _) ↦ inl (same ∙ quiet)
        | inr (more, _) ↦ inr (
          unmarked,
          (wrapper, signed, by_bot, more ∙ ap (λ l. group_message bot_id signed ∷ l) quiet),
        )
      ]

  signing :
      (w v : World S) (wrapper : Event) (outcome : Result Event)
      → sign_unsigned_event env bot_id (as_own env bot_id wrapper) ≡ outcome
      → v.relayed ≡ w.relayed
      → load_mls_group_state_lost_at bot_id group_id w.tables ≡ none
      → Sent w (after (v, outcome) (λ signed. relay env (group_message bot_id signed))).0
  signing w v wrapper (err e) by_bot quiet unmarked = inl quiet
  signing w v wrapper (ok signed) by_bot quiet unmarked =
      last_step w v wrapper signed quiet unmarked by_bot

  sending :
      (w v : World S) (id : String) (rumor : UnsignedEvent)
      → v.relayed ≡ w.relayed
      → load_mls_group_state_lost_at bot_id group_id w.tables ≡ none
      → Sent w (send_group_message env bot_id id rumor v).0
  unfolding send_group_message
  sending w v id rumor quiet unmarked =
      after_quiet w (command bot_id (create_group_message env.mdk id rumor) v) _
        (command-relayed bot_id (create_group_message env.mdk id rumor) v ∙ quiet)
        (λ created u same.
          after_quiet w (resolved (creation_error env) created u) _
            (resolved-relayed (creation_error env) created u ∙ same)
            (λ wrapper x here.
              signing w x wrapper (sign_unsigned_event env bot_id (as_own env bot_id wrapper)) refl
                here unmarked))

  resolve-relayed :
      (core : Dispatch) (w : World S) → (resolve env core bot_id group_id w).0.relayed ≡ w.relayed
  unfolding resolve
  resolve-relayed core w =
      after_keeps (λ v. v.relayed) (w, bot_with_engine core w bot_id) _ refl
        (λ _ v.
          after_keeps (λ u. u.relayed) (command bot_id (resolve_wire_id env.mdk group_id) v)
            (resolved resolve_error) (command-relayed bot_id (resolve_wire_id env.mdk group_id) v)
            (resolved-relayed resolve_error))

  -- Sending a text or a reaction to a group, past the gate: at most one event leaves, a group message
  -- that the bot signed as its own, and only if the group's state was not lost.
  pub group_message_lem :
      (content target emoji : String) (bucket : Option String) (core : Dispatch) (w : World S)
      → Sent w (text_act env bot_id group_id content bucket core w).0
        × Sent w (reaction_act env bot_id group_id target emoji core w).0
  unfolding text_act reaction_act
  group_message_lem content target emoji bucket core w = (
    past_mark w _ (λ unmarked.
        after_quiet w (resolve env core bot_id group_id w) _ (resolve-relayed core w) (λ id v quiet.
          sending w v id (build_group_text_rumor env (env.public_key bot_id) content bucket) quiet
            unmarked)),
    past_mark w _ (λ unmarked.
        after_quiet w (resolve env core bot_id group_id w) _ (resolve-relayed core w) (λ id v quiet.
          after_quiet w (v, build_group_reaction_rumor env (env.public_key bot_id) target emoji) _
            quiet (λ rumor u same. sending w u id rumor same unmarked))),
  )

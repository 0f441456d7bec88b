-- ===== src/MlsGroups/Rules.antt =====
-- Rules for the monads of the requests over MLS groups: what a request that came back needed, and
-- which parts of the world its steps leave alone.
use pacto_bot_api.Prelude.{
  String, Option, none, some, ◌∷◌, ◌≡◌, refl, ap, ◌∙◌, ◌⊎◌, inl, inr, string_eq,
}
use pacto_bot_api.Prelude.Dict.{get}
use pacto_bot_api.Errors.{DaemonError, Result, ok, err}
use pacto_bot_api.Dispatch.{Dispatch, Exec}
use pacto_bot_api.Mls.Engine.{Answer, gives, refuses, panics, Work, MlsResult}
use pacto_bot_api.Errors.{MlsError, engine, worker_disconnected}
use pacto_bot_api.MlsGroups.State.{
  World, Service, Env, Outgoing, Pace, in_time, cut_done, cut_undone, Act, after, command, relay,
  or_mls_error, unless_failed, enter, guarded,
}
use pacto_bot_api.MlsGroups.Waiting.{
  Timed, came, failed, expired, Wait, go_on, in_block, await, ignoring, timeout,
}

module _ {S A B : Type 0} where
  pub after-eq-ok :
      (out : World S × Result A) (rest : A → Act S B) {w' : World S} {b : B}
      → after out rest ≡ (w', ok b)
      → (w : World S) × (a : A) × (out ≡ (w, ok a)) × (rest a w ≡ (w', ok b))
  after-eq-ok (w, ok a) rest h = (w, a, refl, h)
  after-eq-ok (w, err e) rest h = cc

  pub go_on-eq-came :
      (out : World S × Timed A) (rest : A → Wait S B) {w' : World S} {b : B}
      → go_on out rest ≡ (w', came b)
      → (w : World S) × (a : A) × (out ≡ (w, came a)) × (rest a w ≡ (w', came b))
  go_on-eq-came (w, came a) rest h = (w, a, refl, h)
  go_on-eq-came (w, failed e) rest h = cc
  go_on-eq-came (w, expired) rest h = cc

  -- A part of the world that each step leaves alone is left alone by the whole.
  pub after_keeps :
      {X : Type 0} (part : World S → X) (out : World S × Result A) (rest : A → Act S B) {x : X}
      → part out.0 ≡ x
      → ((a : A) (w : World S) → part (rest a w).0 ≡ part w)
      → part (after out rest).0 ≡ x
  after_keeps part (w, ok a) rest kept next = next a w ∙ kept
  after_keeps part (w, err e) rest kept next = kept

  pub go_on_keeps :
      {X : Type 0} (part : World S → X) (out : World S × Timed A) (rest : A → Wait S B) {x : X}
      → part out.0 ≡ x
      → ((a : A) (w : World S) → part (rest a w).0 ≡ part w)
      → part (go_on out rest).0 ≡ x
  go_on_keeps part (w, came a) rest kept next = next a w ∙ kept
  go_on_keeps part (w, failed e) rest kept next = kept
  go_on_keeps part (w, expired) rest kept next = kept

module _ {S A : Type 0} where
  pub await_keeps :
      {X : Type 0} (part : World S → X) (pace : Pace) (step : Act S A) (w : World S)
      → part (step w).0 ≡ part w
      → part (await pace step w).0 ≡ part w
  await_keeps part in_time step w kept = block_keeps part (step w) kept
    where
      block_keeps :
          {X : Type 0} (part : World S → X) (out : World S × Result A) {x : X}
          → part out.0 ≡ x
          → part (in_block out).0 ≡ x
      block_keeps part (w, ok a) kept = kept
      block_keeps part (w, err e) kept = kept
  await_keeps part cut_done step w kept = kept
  await_keeps part cut_undone step w kept = refl

  pub ignoring-state : (out : World S × Timed A) → (ignoring out).0 ≡ out.0
  ignoring-state (w, came a) = refl
  ignoring-state (w, failed e) = refl
  ignoring-state (w, expired) = refl

  pub timeout-state : (out : World S × Timed A) → (timeout out).0 ≡ out.0
  timeout-state (w, came a) = refl
  timeout-state (w, failed e) = refl
  timeout-state (w, expired) = refl

  -- A check that reads the tables, after a call of the database that may fail.
  pub checked-state :
      (o : Option DaemonError) (check : World S → Result A) (w : World S)
      → (after (unless_failed o w) (λ _ v. (v, check v))).0 ≡ w
  checked-state none check w = refl
  checked-state (some e) check w = refl

  pub or_mls_error-tables : (r : MlsResult A) (w : World S) → (or_mls_error r w).0.tables ≡ w.tables
  or_mls_error-tables (MlsResult.ok a) w = refl
  or_mls_error-tables (MlsResult.err e) w = refl

  pub command-tables :
      (bot_id : String) (work : Work S A) (w : World S)
      → (command bot_id work w).0.tables ≡ w.tables
  unfolding command
  command-tables bot_id work w = by_engine (get bot_id w.engines) refl
    where
      by_engine :
          (o : Option S) → get bot_id w.engines ≡ o → (command bot_id work w).0.tables ≡ w.tables
      by_engine none h = rw (h, command) refl
      by_engine (some s) h = rw (h, command) refl

  pub asked-tables :
      (bot_id : String) (work : Work S A) (w : World S)
      → (after (command bot_id work w) or_mls_error).0.tables ≡ w.tables
  asked-tables bot_id work w =
      after_keeps (λ v. v.tables) (command bot_id work w) or_mls_error
        (command-tables bot_id work w) or_mls_error-tables

  pub command-relayed :
      (bot_id : String) (work : Work S A) (w : World S)
      → (command bot_id work w).0.relayed ≡ w.relayed
  unfolding command
  command-relayed bot_id work w = by_engine (get bot_id w.engines) refl
    where
      by_engine :
          (o : Option S) → get bot_id w.engines ≡ o → (command bot_id work w).0.relayed ≡ w.relayed
      by_engine none h = rw (h, command) refl
      by_engine (some s) h = rw (h, command) refl

-- What a command that came back had: the bot's engine, and the value of the work on it.
pub command-cases :
    {S A : Type 0} (bot_id : String) (work : Work S A) (w : World S)
    → ((e : MlsError) × ((command bot_id work w).1 ≡ ok (MlsResult.err e)))
      ⊎ ((s : S) × (a : A) × (get bot_id w.engines ≡ some s)
          × ((work s).1 ≡ gives a)
          × ((command bot_id work w).1 ≡ ok (MlsResult.ok a)))
unfolding command
command-cases {S = S} {A = A} bot_id work w = by_engine (get bot_id w.engines) refl
  where
    Cases : Type 0
    Cases =
        ((e : MlsError) × ((command bot_id work w).1 ≡ ok (MlsResult.err e)))
        ⊎ ((s : S) × (a : A) × (get bot_id w.engines ≡ some s)
            × ((work s).1 ≡ gives a)
            × ((command bot_id work w).1 ≡ ok (MlsResult.ok a)))

    by_answer :
        (s : S) (out : S × Answer MlsError A) → get bot_id w.engines ≡ some s → work s ≡ out → Cases
    by_answer s (s', gives a) h g = inr (s, a, h, ap (λ o. o.1) g, rw (h, command) (rw (g) refl))
    by_answer s (s', refuses e) h g = inl (e, rw (h, command) (rw (g) refl))
    by_answer s (s', panics) h g = inl (engine "MLS worker panic", rw (h, command) (rw (g) refl))

    by_engine : (o : Option S) → get bot_id w.engines ≡ o → Cases
    by_engine none h = inl (worker_disconnected, rw (h, command) refl)
    by_engine (some s) h = by_answer s (work s) h refl

pub relay-tables :
    {S : Type 0} (env : Env S) (out : Outgoing) (w : World S)
    → (relay env out w).0.tables ≡ w.tables
unfolding relay
relay-tables env out w = by_answer (env.send out) refl
  where
    by_answer : (r : Result String) → env.send out ≡ r → (relay env out w).0.tables ≡ w.tables
    by_answer (ok id) h = rw (h, relay) refl
    by_answer (err e) h = rw (h, relay) refl

-- What is sent, is sent once.
pub relay-relayed :
    {S : Type 0} (env : Env S) (out : Outgoing) (w : World S)
    → (((relay env out w).0.relayed ≡ w.relayed)
        × ((e : DaemonError) × ((relay env out w).1 ≡ err e)))
      ⊎ (((relay env out w).0.relayed ≡ out ∷ w.relayed)
          × ((id : String) × ((relay env out w).1 ≡ ok id)))
unfolding relay
relay-relayed env out w = by_answer (env.send out) refl
  where
    by_answer :
        (r : Result String)
        → env.send out ≡ r
        → (((relay env out w).0.relayed ≡ w.relayed)
            × ((e : DaemonError) × ((relay env out w).1 ≡ err e)))
          ⊎ (((relay env out w).0.relayed ≡ out ∷ w.relayed)
              × ((id : String) × ((relay env out w).1 ≡ ok id)))
    by_answer (ok id) h = inr (rw (h, relay) refl, (id, rw (h, relay) refl))
    by_answer (err e) h = inl (rw (h, relay) refl, (e, rw (h, relay) refl))

-- A request touches the world only past its gate.
pub guarded-world :
    {S X A : Type 0} (gate : Exec X) (act : X → Dispatch → Act S A) (s : Service S)
    → ((guarded gate act s).0.world ≡ s.world)
      ⊎ ((core : Dispatch) × (x : X) × (gate s.core ≡ (core, ok x)))
guarded-world {X = X} gate act s = by_gate (gate s.core) refl
  where
    by_gate :
        (out : Dispatch × Result X)
        → gate s.core ≡ out
        → ((enter s.world out act).0.world ≡ s.world)
          ⊎ ((core : Dispatch) × (x : X) × (gate s.core ≡ (core, ok x)))
    by_gate (core, err e) h = inl refl
    by_gate (core, ok x) h = inr (core, x, h)

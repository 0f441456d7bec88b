-- ===== src/Handlers/Invariant.antt =====
-- The registry of src/handlers.rs over its whole life: each call keeps the keys distinct, files
-- every handler under its own id, and keeps its rights within what the configuration grants.
use pacto_bot_api.Prelude.{
  ℕ, String, true, ◌&&◌, some, List, [], ◌∷◌, ◌≡◌, refl, ap, sym, subst, ◌∙◌, inl, inr, arith,
  string_eq, eq_iff, ◌==◌, contains, Option-cases, Bool-cases, All, All-contains,
}
use pacto_bot_api.Prelude.Dict.{
  Distinct, get, insert, remove, get-insert, get-remove, insert-Distinct, remove-Distinct,
}
use pacto_bot_api.Config.{BotConfig}
use pacto_bot_api.Errors.{Result, ok, err, ok_or, bind-eq-ok, ok_or-eq-ok, handler_not_registered}
use pacto_bot_api.Handlers.{
  HandlerRegistry, HandlerRegistration, HandlerRef, ConnectionHandle, Channels, TokenCodec, Draw,
  attach, empty, register, reconnect, restore, unregister, disconnect, disconnect_handler,
  check_bots, is_authorized, allows,
}
use pacto_bot_api.Handlers.Grants.{Grants, GrantsAll, register-eq-ok, check_bots_iff}
use pacto_bot_api.Handlers.Reconnect.{reconnect_sound}

-- The calls that change the registry, with what each reads from outside. `disconnects` is the
-- daemon's `disconnect_handler`, by `get_handler_mut`.
pub data Call : Type 0 where
  registers : Draw → ConnectionHandle → List String → List String → List String → Call
  reconnects : Channels → ℕ → String → String → ConnectionHandle → Call
  unregisters : String → Call
  disconnects : ℕ → String → Call
  restores : HandlerRef → Call

-- A call that fails leaves the registry as it was.
abbrev after {ℓ} : {A : Type ℓ} → HandlerRegistry → Result (A × HandlerRegistry) → HandlerRegistry
after r (ok (_, r')) = r'
after r (err _) = r

abbrev after_unregister : HandlerRegistry → Result HandlerRegistry → HandlerRegistry
after_unregister r (ok r') = r'
after_unregister r (err _) = r

-- An entry under key `k`.
pub record Fits (configs : List BotConfig) (k : String) (h : HandlerRef) : Type 0 where
  pub named : h.id ≡ k
  pub granted : (b c : String) → allows h b c ≡ true → Grants configs b c

pub record IsSound (configs : List BotConfig) (r : HandlerRegistry) : Type 0 where
  pub distinct : Distinct r.handlers
  pub entries : (k : String) (h : HandlerRef) → get k r.handlers ≡ some h → Fits configs k h

-- A restored row must fit by itself: `restore` looks nothing up.
abbrev pub Trusted : List BotConfig → Call → Type 0
Trusted configs (restores h) = Fits configs h.id h
Trusted configs _ = Unit

module _ (codec : TokenCodec) (configs : List BotConfig) where
  unfoldable pub step : HandlerRegistry → Call → HandlerRegistry
  step r (registers d conn bots events caps) = after r (register d r conn bots events caps configs)
  step r (reconnects net now id token conn) = after r (reconnect codec net now r id token conn)
  step r (unregisters id) = after_unregister r (unregister id r)
  step r (disconnects now id) = disconnect_handler now id r
  step r (restores h) = restore h r

  unfoldable pub run : HandlerRegistry → List Call → HandlerRegistry
  unfolding step
  run r [] = r
  run r (c ∷ cs) = run (step r c) cs

-- What the check of a registration gives for a pair that its handler then has.
checked_pair :
    (configs : List BotConfig) (b c : String) (bots caps : List String)
    → check_bots configs bots caps ≡ ok tt
    → contains bots b && contains caps c ≡ true
    → Grants configs b c
checked_pair configs b c bots caps checked a =
    let (conf, found, granted) =
      All-contains (GrantsAll configs caps) bots b ((check_bots_iff configs bots caps).0 checked)
        (ground arith) in
    (
      conf,
      found,
      All-contains (λ x. contains conf.capabilities x ≡ true) caps c granted (ground arith),
    )

module _ (configs : List BotConfig) where
  insert-IsSound :
      (k : String) (h : HandlerRef) (r r' : HandlerRegistry)
      → r'.handlers ≡ insert k h r.handlers
      → Fits configs k h
      → IsSound configs r
      → IsSound configs r'
  insert-IsSound k h r r' e f s = record {
    distinct = rw e (insert-Distinct k h r.handlers s.distinct);
    entries = λ j x found. elim (Bool-cases (k == j)) [
      | inl same ↦
          let here : h ≡ x = ground (arith, ap (get j) e, get-insert k j h r.handlers) in
          subst (λ y. Fits configs j y) here (subst (λ i. Fits configs i h) ((eq_iff k j).0 same) f)
      | inr other ↦ s.entries j x (ground (arith, ap (get j) e, get-insert k j h r.handlers))
    ];
  }

  remove-IsSound :
      (k : String) (r : HandlerRegistry)
      → IsSound configs r
      → IsSound configs (record { handlers = remove k r.handlers })
  remove-IsSound k r s = record {
    distinct = remove-Distinct k r.handlers s.distinct;
    entries = λ j x found. s.entries j x (ground (arith, get-remove k j r.handlers));
  }

  -- A handler that keeps its id and its rights fits wherever it fitted.
  Fits-same_rights :
      (k : String) (h h' : HandlerRef)
      → h'.id ≡ h.id
      → ((b c : String) → allows h' b c ≡ allows h b c)
      → Fits configs k h
      → Fits configs k h'
  Fits-same_rights k h h' ids rights f = record {
    named = ids ∙ f.named;
    granted = λ b c a. f.granted b c (sym (rights b c) ∙ a);
  }

  register-IsSound :
      (d : Draw) (r : HandlerRegistry) (conn : ConnectionHandle) (bots events caps : List String)
      (o : Result (HandlerRegistration × HandlerRegistry))
      → register d r conn bots events caps configs ≡ o
      → IsSound configs r
      → IsSound configs (after r o)
  unfolding allows
  register-IsSound d r conn bots events caps (err _) e s = s
  register-IsSound d r conn bots events caps (ok (reg, r')) e s =
      let (parsed, checked, _, _, _, entered) =
        register-eq-ok d r r' conn bots events caps configs reg e in
      insert-IsSound d.uuid _ r r' entered
        (record { named = refl; granted = λ b c a. checked_pair configs b c bots caps checked a }) s

  reconnect-IsSound :
      (codec : TokenCodec) (net : Channels) (now : ℕ) (r : HandlerRegistry) (id token : String)
      (conn : ConnectionHandle) (o : Result (String × HandlerRegistry))
      → reconnect codec net now r id token conn ≡ o
      → IsSound configs r
      → IsSound configs (after r o)
  unfolding allows
  reconnect-IsSound codec net now r id token conn (err _) e s = s
  reconnect-IsSound codec net now r id token conn (ok (id', r')) e s =
      let (h, found, _, _, _, entered) = reconnect_sound codec net now r id token conn id' r' e in
      insert-IsSound id (attach now conn h) r r' entered
        (Fits-same_rights id h (attach now conn h) refl (λ b c. refl) (s.entries id h found)) s

  unregister-IsSound :
      (id : String) (r : HandlerRegistry)
      → IsSound configs r
      → IsSound configs (after_unregister r (unregister id r))
  unfolding unregister
  unregister-IsSound id r s = elim (Option-cases (get id r.handlers)) [
    | inl e ↦ rw e s
    | inr (h, e) ↦ rw e (remove-IsSound id r s)
  ]

  disconnect-IsSound :
      (now : ℕ) (id : String) (r : HandlerRegistry)
      → IsSound configs r
      → IsSound configs (disconnect_handler now id r)
  unfolding disconnect_handler disconnect allows
  disconnect-IsSound now id r s = elim (Option-cases (get id r.handlers)) [
    | inl e ↦ rw (e, disconnect_handler) s
    | inr (h, e) ↦
        rw (e, disconnect_handler)
          (insert-IsSound id (disconnect now h) r _ refl
            (Fits-same_rights id h (disconnect now h) refl (λ b c. refl) (s.entries id h e)) s)
  ]

  restore-IsSound :
      (h : HandlerRef) (r : HandlerRegistry)
      → Fits configs h.id h
      → IsSound configs r
      → IsSound configs (restore h r)
  unfolding restore allows
  restore-IsSound h r f s = elim (Option-cases (get h.id r.handlers)) [
    | inl e ↦
        rw (e, restore)
          (insert-IsSound h.id _ r _ refl (Fits-same_rights h.id h _ refl (λ b c. refl) f) s)
    | inr (x, e) ↦ rw (e, restore) s
  ]

module _ (codec : TokenCodec) (configs : List BotConfig) where
  step-IsSound :
      (r : HandlerRegistry) (c : Call)
      → Trusted configs c
      → IsSound configs r
      → IsSound configs (step codec configs r c)
  unfolding step
  step-IsSound r (registers d conn bots events caps) t s =
      register-IsSound configs d r conn bots events caps _ refl s
  step-IsSound r (reconnects net now id token conn) t s =
      reconnect-IsSound configs codec net now r id token conn _ refl s
  step-IsSound r (unregisters id) t s = unregister-IsSound configs id r s
  step-IsSound r (disconnects now id) t s = disconnect-IsSound configs now id r s
  step-IsSound r (restores h) t s = restore-IsSound configs h r t s

  pub run-IsSound :
      (r : HandlerRegistry) (cs : List Call)
      → All (Trusted configs) cs
      → IsSound configs r
      → IsSound configs (run codec configs r cs)
  unfolding run
  run-IsSound r [] t s = s
  run-IsSound r (c ∷ cs) t s = run-IsSound (step codec configs r c) cs t.1 (step-IsSound r c t.0 s)

  empty-IsSound : IsSound configs empty
  unfolding get
  empty-IsSound = record { distinct = tt; entries = λ k h e. cc }

  -- Whatever calls a fresh registry has seen, a handler that is authorized for a bot and a
  -- capability is so by the configuration, if every row that was restored fitted by itself.
  pub run_authorized_is_granted :
      (cs : List Call) (k b c : String)
      → All (Trusted configs) cs
      → is_authorized (run codec configs empty cs) k b c ≡ ok true
      → Grants configs b c
  unfolding is_authorized
  run_authorized_is_granted cs k b c trusted a =
      let r = run codec configs empty cs in
      let (h, found, allowed) = bind-eq-ok (ok_or (get k r.handlers) handler_not_registered) _ a in
      ((run-IsSound empty cs trusted empty-IsSound).entries k h (ok_or-eq-ok _ _ found)).granted b c
        (ground arith)

-- ===== src/Dispatch/Lives.antt =====
-- The handlers' comings and goings in src/dispatch.rs as one run, and what becomes of the counter
-- when the database fails.
use pacto_bot_api.Prelude.{
  ℕ, ◌-◌, ◌^◌, String, Option, none, some, List, [], ◌∷◌, map, keep, ◌≡◌, refl, inl, inr, arith,
  string_eq, Option-cases, ap, ◌∙◌,
}
use pacto_bot_api.Prelude.Dict.{get, get-insert_same}
use pacto_bot_api.Errors.{DaemonError, Result, ok, err}
use pacto_bot_api.Handlers.{
  HandlerRegistration, HandlerRegistry, ConnectionHandle, Draw, TokenCodec, Channels, is_stale,
  all_handlers, register, new_handler, unregister,
}
use pacto_bot_api.Handlers.Grants.{register-eq-ok}
use pacto_bot_api.Dispatch.State.{Dispatch, DbFaults, bot_configs}
use pacto_bot_api.Dispatch.Lifecycle.{
  RegisterParams, handle_register, handle_reconnect, handle_unregister, unregister_handler,
  reap_stale, reap, register_parsed, enter, announce, set_registry, fetch_sub, count_handlers,
}
use pacto_bot_api.Dispatch.Counting.{
  IsCounted, handle_register-IsCounted, handle_reconnect-IsCounted, unregister_handler-IsCounted,
}

-- What can come to the dispatcher about a handler's life.
pub data Call : Type 0 where
  registers : Draw → Option RegisterParams → ConnectionHandle → Call
  reconnects : Channels → ℕ → Option (Result (String × String)) → ConnectionHandle → Call
  unregisters : Option String → Call
  reaps : Channels → ℕ → ℕ → Call

module _ (db : DbFaults) (codec : TokenCodec) (dir : Option String) where
  unfoldable pub step : Dispatch → Call → Dispatch
  unfolding handle_register handle_reconnect handle_unregister reap_stale
  step s (registers d params conn) = (handle_register db d dir params conn s).0
  step s (reconnects net now params conn) = (handle_reconnect db codec net now dir params conn s).0
  step s (unregisters id) = (handle_unregister db id s).0
  step s (reaps net now timeout) = reap_stale db net now timeout s

  unfoldable pub run : Dispatch → List Call → Dispatch
  unfolding step
  run s [] = s
  run s (c ∷ cs) = run (step s c) cs

  -- A registration draws an id that is not taken.
  abbrev pub IsFresh : Dispatch → Call → Type 0
  IsFresh s (registers d params conn) = get d.uuid s.registry.handlers ≡ none
  IsFresh s _ = Unit

  abbrev pub AllFresh : Dispatch → List Call → Type 0
  AllFresh s [] = Unit
  AllFresh s (c ∷ cs) = IsFresh s c × AllFresh (step s c) cs

module _ (db : DbFaults) where
  reap-IsCounted :
      (ids : List String) (s : Dispatch)
      → db.delete_handler ≡ none
      → IsCounted s
      → IsCounted (reap db ids s)
  unfolding reap
  reap-IsCounted [] s up c = c
  reap-IsCounted (id ∷ ids) s up c =
      reap-IsCounted ids (unregister_handler db id s).0 up
        (unregister_handler-IsCounted db id s up c)

  handle_unregister-IsCounted :
      (id : Option String) (s : Dispatch)
      → db.delete_handler ≡ none
      → IsCounted s
      → IsCounted (handle_unregister db id s).0
  unfolding handle_unregister unregister_handler unregister
  handle_unregister-IsCounted none s up c = c
  handle_unregister-IsCounted (some id) s up c = elim (Option-cases (get id s.registry.handlers)) [
    | inl e ↦ rw e c
    | inr (h, e) ↦
        let gone = unregister_handler-IsCounted db id s up c in rw (e, up) (rw (e, up) at gone)
  ]

module _ (db : DbFaults) (codec : TokenCodec) (dir : Option String) where
  step-IsCounted :
      (s : Dispatch) (c : Call)
      → db.save_handler ≡ none
      → db.delete_handler ≡ none
      → IsFresh db codec dir s c
      → IsCounted s
      → IsCounted (step db codec dir s c)
  unfolding step reap_stale
  step-IsCounted s (registers d params conn) saves deletes fresh c =
      handle_register-IsCounted db d dir conn params s saves fresh c
  step-IsCounted s (reconnects net now params conn) saves deletes fresh c =
      handle_reconnect-IsCounted db codec net now dir conn params s c
  step-IsCounted s (unregisters id) saves deletes fresh c =
      handle_unregister-IsCounted db id s deletes c
  step-IsCounted s (reaps net now timeout) saves deletes fresh c =
      reap-IsCounted db
        (map (λ h. h.id) (keep (is_stale net now timeout) (all_handlers s.registry))) s deletes c

  -- While the database takes the writes of handlers, and each registration draws an id that is not
  -- taken, the counter says how many handlers the registry has after any registrations,
  -- reconnections, removals and reaper ticks, if it did so before.
  pub run-IsCounted :
      (s : Dispatch) (cs : List Call)
      → db.save_handler ≡ none
      → db.delete_handler ≡ none
      → AllFresh db codec dir s cs
      → IsCounted s
      → IsCounted (run db codec dir s cs)
  unfolding run
  run-IsCounted s [] saves deletes fresh c = c
  run-IsCounted s (x ∷ xs) saves deletes fresh c =
      run-IsCounted (step db codec dir s x) xs saves deletes fresh.1
        (step-IsCounted s x saves deletes fresh.0 c)

-- A registration that passes every check but whose row cannot be saved answers with the database's
-- error, and yet the handler stays in the registry and is not counted: once it is removed, the
-- counter of an empty registry has wrapped around to the largest number.
pub unsaved_registration_wraps :
    (db up : DbFaults) (d : Draw) (dir : Option String) (conn : ConnectionHandle) (s : Dispatch)
    (bots events caps : List String) (e : DaemonError) (reg : HandlerRegistration)
    (r : HandlerRegistry)
    → db.save_handler ≡ some e
    → up.delete_handler ≡ none
    → s.handlers_registered ≡ 0
    → register d s.registry conn bots events caps (bot_configs s) ≡ ok (reg, r)
    → (s1 : Dispatch) × (register_parsed db d dir conn (bots, events, caps) s ≡ (s1, err e))
      × ((unregister_handler up d.uuid s1).0.handlers_registered ≡ 2 ^ 64 - 1)
unfolding register_parsed enter announce unregister_handler unregister count_handlers fetch_sub
unsaved_registration_wraps db up d dir conn s bots events caps e reg r down works zero taken =
    let (parsed, _, _, _, named, entered) =
      register-eq-ok d s.registry r conn bots events caps (bot_configs s) reg taken in
    let h = new_handler d conn bots parsed caps reg.reconnect_token in
    let found : get d.uuid r.handlers ≡ some h =
      ap (get d.uuid) entered ∙ get-insert_same d.uuid h s.registry.handlers in
    (set_registry r s, rw (taken, named, found, down) refl, rw (found, works) (omega (arith, zero)))

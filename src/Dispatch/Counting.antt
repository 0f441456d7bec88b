-- ===== src/Dispatch/Counting.antt =====
-- `handlers_registered` of src/dispatch.rs against the registry that it counts.
use pacto_bot_api.Prelude.{
  ℕ, ◌%◌, ◌^◌, String, Option, none, some, List, length, ◌≡◌, inl, inr, arith, string_eq,
  Option-cases, ap, ◌∙◌,
}
use pacto_bot_api.Prelude.Dict.{
  Distinct, get, insert, get-insert_same, length-insert, length-remove, insert-Distinct,
  remove-Distinct,
}
use pacto_bot_api.Errors.{Result, ok}
use pacto_bot_api.Handlers.{
  HandlerRef, HandlerRegistration, HandlerRegistry, ConnectionHandle, Draw, unregister, register,
  new_handler, reconnect, attach, TokenCodec, Channels,
}
use pacto_bot_api.Handlers.Grants.{register-eq-ok}
use pacto_bot_api.Handlers.Reconnect.{reconnect_sound}
use pacto_bot_api.Dispatch.State.{Dispatch, DbFaults, bot_configs}
use pacto_bot_api.Dispatch.Lifecycle.{
  RegisterParams, fetch_add, fetch_sub, count_handlers, set_registry, announce, unregister_handler,
  handle_register, register_parsed, parse_register, enter, enter_again, reconnect_parsed,
  parse_reconnect, handle_reconnect,
}
use pacto_bot_api.Dispatch.Rules.{after_lift}

-- The counter says how many handlers the registry has.
pub record IsCounted (s : Dispatch) : Type 0 where
  pub distinct : Distinct s.registry.handlers
  pub counted : s.handlers_registered ≡ length s.registry.handlers % (2 ^ 64)

pub unregister_handler-IsCounted :
    (db : DbFaults) (id : String) (s : Dispatch)
    → db.delete_handler ≡ none
    → IsCounted s
    → IsCounted (unregister_handler db id s).0
unfolding unregister_handler unregister count_handlers fetch_sub
unregister_handler-IsCounted db id s up c = elim (Option-cases (get id s.registry.handlers)) [
  | inl e ↦ rw e c
  | inr (h, e) ↦
      rw (e, up)
        (record {
          distinct = remove-Distinct id s.registry.handlers c.distinct;
          counted = omega (arith, length-remove id h s.registry.handlers c.distinct e, c.counted);
        })
]

announce-IsCounted :
    (db : DbFaults) (dir : Option String) (id : String) (token : Option String) (s : Dispatch)
    (h : HandlerRef)
    → db.save_handler ≡ none
    → get id s.registry.handlers ≡ some h
    → Distinct s.registry.handlers
    → fetch_add s.handlers_registered ≡ length s.registry.handlers % (2 ^ 64)
    → IsCounted (announce db (count_handlers fetch_add) dir id token s).0
unfolding announce count_handlers
announce-IsCounted db dir id token s h up found d n =
    rw (found, up) (record { distinct = d; counted = n })

module _ (db : DbFaults) (d : Draw) (dir : Option String) (connection : ConnectionHandle) where
  -- Under a fresh id, the registry's answer keeps the count.
  enter-IsCounted :
      (s : Dispatch) (bots events caps : List String) (reg : HandlerRegistration)
      (r : HandlerRegistry)
      → db.save_handler ≡ none
      → get d.uuid s.registry.handlers ≡ none
      → IsCounted s
      → register d s.registry connection bots events caps (bot_configs s) ≡ ok (reg, r)
      → IsCounted (enter db dir (reg, r) s).0
  unfolding fetch_add enter
  enter-IsCounted s bots events caps reg r up fresh c e =
      let (parsed, _, _, _, named, entered) =
        register-eq-ok d s.registry r connection bots events caps (bot_configs s) reg e in
      let m = s.registry.handlers in
      let h = new_handler d connection bots parsed caps reg.reconnect_token in
      announce-IsCounted db dir reg.handler_id (some reg.reconnect_token) (set_registry r s) h up
        (ap (get reg.handler_id) entered
          ∙ ap (λ k. get k (insert d.uuid h m)) named
          ∙ get-insert_same d.uuid h m)
        (rw entered (insert-Distinct d.uuid h m c.distinct))
        (rw (entered, length-insert d.uuid h m, fresh) (omega (arith, c.counted)))

  register_parsed-IsCounted :
      (s : Dispatch) (bots events caps : List String)
      → db.save_handler ≡ none
      → get d.uuid s.registry.handlers ≡ none
      → IsCounted s
      → IsCounted (register_parsed db d dir connection (bots, events, caps) s).0
  unfolding register_parsed
  register_parsed-IsCounted s bots events caps up fresh c =
      after_lift IsCounted (register d s.registry connection bots events caps (bot_configs s))
        (enter db dir) s c (λ out e. enter-IsCounted s bots events caps out.0 out.1 up fresh c e)

  pub handle_register-IsCounted :
      (params : Option RegisterParams) (s : Dispatch)
      → db.save_handler ≡ none
      → get d.uuid s.registry.handlers ≡ none
      → IsCounted s
      → IsCounted (handle_register db d dir params connection s).0
  unfolding handle_register
  handle_register-IsCounted params s up fresh c =
      after_lift IsCounted (parse_register params) (register_parsed db d dir connection) s c
        (λ p _. register_parsed-IsCounted s p.0 p.1 p.2 up fresh c)

module _ (db : DbFaults) (codec : TokenCodec) (net : Channels) (now : ℕ) (dir : Option String)
    (connection : ConnectionHandle) where
  enter_again-IsCounted :
      (s : Dispatch) (id token : String) (id' : String) (r : HandlerRegistry)
      → IsCounted s
      → reconnect codec net now s.registry id token connection ≡ ok (id', r)
      → IsCounted (enter_again db dir (id', r) s).0
  unfolding enter_again announce
  enter_again-IsCounted s id token id' r c e =
      let (h, found, _, _, _, entered) =
        reconnect_sound codec net now s.registry id token connection id' r e in
      let m = s.registry.handlers in
      let kept : IsCounted (set_registry r s) = record {
        distinct = rw entered (insert-Distinct id (attach now connection h) m c.distinct);
        counted =
            rw (entered, length-insert id (attach now connection h) m, found)
              (omega (arith, c.counted));
      } in
      elim (Option-cases (get id' r.handlers)) [
        | inl none_there ↦ rw none_there kept
        | inr (x, there) ↦ elim (Option-cases db.save_handler) [
          | inl up ↦ rw (there, up) (record { distinct = kept.distinct; counted = kept.counted })
          | inr (_, down) ↦ rw (there, down) kept
        ]
      ]

  pub handle_reconnect-IsCounted :
      (params : Option (Result (String × String))) (s : Dispatch)
      → IsCounted s
      → IsCounted (handle_reconnect db codec net now dir params connection s).0
  unfolding handle_reconnect reconnect_parsed
  handle_reconnect-IsCounted params s c =
      after_lift IsCounted (parse_reconnect params)
        (reconnect_parsed db codec net now dir connection) s c
        (λ p _.
          after_lift IsCounted (reconnect codec net now s.registry p.0 p.1 connection)
            (enter_again db dir) s c (λ out e. enter_again-IsCounted s p.0 p.1 out.0 out.1 c e))

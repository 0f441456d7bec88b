-- ===== src/Dispatch/Restoring.antt =====
-- A restart of the daemon in src/dispatch.rs: what src/db.rs keeps of a handler comes back.
use pacto_bot_api.Prelude.{
  String, false, none, some, List, [], ◌∷◌, ◌*◌, ◌/◌, ◌≡◌, refl, sym, ap, ap₂, subst, ◌∙◌, map,
  string_eq, eq_iff, Bool-cases, Option-cases, inl, inr, ◌==◌,
}
use pacto_bot_api.Prelude.Dict.{Dict, get, insert, get-insert, get-insert_same}
use pacto_bot_api.Errors.{ok}
use pacto_bot_api.Handlers.{HandlerRef, HandlerRegistry, empty, restore, is_authorized, allows}
use pacto_bot_api.Limits.{second}
use pacto_bot_api.Dispatch.State.{Dispatch, HandlerRow, DbFaults}
use pacto_bot_api.Dispatch.Lifecycle.{
  row_of, save_row, from_row, load_handlers, restore_all, restore_handlers,
}

-- A handler as it is after a restart: without a connection, and seen last when it registered, in
-- whole seconds.
abbrev pub reopened : HandlerRef → HandlerRef
reopened h = record {
  id = h.id;
  connection = none;
  bot_ids = h.bot_ids;
  event_types = h.event_types;
  capabilities = h.capabilities;
  reconnect_token = h.reconnect_token;
  registered_at = h.registered_at / second * second;
  last_seen = h.registered_at / second * second;
  transport = "unknown";
}

restore_keeps :
    (id : String) (x h : HandlerRef) (r : HandlerRegistry)
    → get id r.handlers ≡ some x
    → get id (restore h r).handlers ≡ some x
unfolding restore
restore_keeps id x h r here = elim (Option-cases (get h.id r.handlers)) [
  | inr (old, e) ↦ rw (e, restore) here
  | inl e ↦
      rw (e, restore)
        (elim (Bool-cases (h.id == id)) [
          | inl same ↦ cc (ap (λ k. get k r.handlers) ((eq_iff h.id id).0 same), e, here)
          | inr other ↦ get-insert h.id id _ r.handlers ∙ rw other here
        ])
]

restore_all_keeps :
    (id : String) (x : HandlerRef) (hs : List HandlerRef) (r : HandlerRegistry)
    → get id r.handlers ≡ some x
    → get id (restore_all hs r).handlers ≡ some x
unfolding restore_all
restore_all_keeps id x [] r here = here
restore_all_keeps id x (h ∷ hs) r here =
    restore_all_keeps id x hs (restore h r) (restore_keeps id x h r here)

restore_other :
    (id : String) (h : HandlerRef) (r : HandlerRegistry)
    → (h.id == id) ≡ false
    → get id r.handlers ≡ none
    → get id (restore h r).handlers ≡ none
unfolding restore
restore_other id h r other absent = elim (Option-cases (get h.id r.handlers)) [
  | inr (old, e) ↦ rw (e, restore) absent
  | inl e ↦ rw (e, restore) (get-insert h.id id _ r.handlers ∙ rw other absent)
]

restore_new :
    (id : String) (row : HandlerRow) (r : HandlerRegistry)
    → get id r.handlers ≡ none
    → get id (restore (from_row (id, row)) r).handlers ≡ some (from_row (id, row))
unfolding restore from_row
restore_new id row r absent =
    rw (absent, restore) (get-insert_same id (from_row (id, row)) r.handlers)

-- Each row is found again, under its id.
restore_rows :
    (id : String) (row : HandlerRow) (rows : Dict String HandlerRow) (r : HandlerRegistry)
    → get id r.handlers ≡ none
    → get id rows ≡ some row
    → get id (restore_all (map from_row rows) r).handlers ≡ some (from_row (id, row))
unfolding restore_all get from_row
restore_rows id row [] r absent h = cc
restore_rows id row ((j, v) ∷ rows) r absent h = elim (Bool-cases (j == id)) [
  | inl same ↦
      let found : some v ≡ some row = sym (rw same refl) ∙ h in
      let row_is : (j, v) ≡ (id, row) = ap₂ (λ a b. (a, b)) ((eq_iff j id).0 same) (cc found) in
      restore_all_keeps id (from_row (id, row)) (map from_row rows) (restore (from_row (j, v)) r) (
        subst (λ e. get id (restore (from_row e) r).handlers ≡ some (from_row (id, row)))
          (sym row_is) (restore_new id row r absent))
  | inr other ↦
      restore_rows id row rows (restore (from_row (j, v)) r)
        (restore_other id (from_row (j, v)) r other absent) (sym (rw other refl) ∙ h)
]

-- The row of a handler is saved, and a restart with an empty registry loads the rows without an error:
-- the handler is found under its id as it was, but without a connection and of unknown transport, its
-- times being that of its registration in whole seconds; and it has the same rights.
pub restore-save :
    (db : DbFaults) (h : HandlerRef) (s : Dispatch) (bot_id capability : String)
    → db.load_handlers ≡ none
    → let restarted =
        (restore_handlers db (record s { tables = save_row h s.tables; registry = empty })).0 in
      (get h.id restarted.registry.handlers ≡ some (reopened h))
      × (is_authorized restarted.registry h.id bot_id capability ≡ ok (allows h bot_id capability))
unfolding restore_handlers load_handlers save_row get is_authorized allows
restore-save db h s bot_id capability works =
    let back : get h.id
          (restore_all (map from_row (insert h.id (row_of h) s.tables.handlers)) empty).handlers
        ≡ some (reopened h) =
      restore_rows h.id (row_of h) (insert h.id (row_of h) s.tables.handlers) empty refl
        (get-insert_same h.id (row_of h) s.tables.handlers) in
    rw works (back, rw back refl)

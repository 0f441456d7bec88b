-- ===== src/Dispatch/Administration.antt =====
-- Who may remove a handler in src/dispatch.rs.
use pacto_bot_api.Prelude.{
  String, Bool, true, Option, none, some, ◌≡◌, refl, sym, ◌⊎◌, inl, inr, string_eq, eq_iff,
  contains, Option-cases, Bool-cases, ap, ◌==◌,
}
use pacto_bot_api.Prelude.Dict.{get}
use pacto_bot_api.Errors.{ok}
use pacto_bot_api.Handlers.{HandlerRef}
use pacto_bot_api.Dispatch.State.{Dispatch, DbFaults}
use pacto_bot_api.Dispatch.Actions.{Params}
use pacto_bot_api.Dispatch.Admin.{require_admin_or_self, is_target, handle_admin_unregister_handler}
use pacto_bot_api.Dispatch.Rules.{continue-eq-ok}

-- The caller is the target, or a registered handler with the capability `Admin`.
abbrev pub MayRemove : Option String → String → Dispatch → Type 0
MayRemove caller_id target s =
    (caller : String) × (caller_id ≡ some caller)
    × ((target ≡ caller)
        ⊎ ((h : HandlerRef) × (get caller s.registry.handlers ≡ some h)
            × (contains h.capabilities "Admin" ≡ true)))

-- Where the check for a target passes, the caller is that handler, or a registered handler with
-- the capability `Admin`, and nothing has changed.
pub require_admin_or_self_sound :
    (caller_id : Option String) (target : String) (s s' : Dispatch)
    → require_admin_or_self caller_id (some target) s ≡ (s', ok tt)
    → MayRemove caller_id target s × (s' ≡ s)
unfolding require_admin_or_self is_target
require_admin_or_self_sound none target s s' h = cc
require_admin_or_self_sound (some caller) target s s' h = elim (Bool-cases (target == caller)) [
  | inl self ↦
      ((caller, refl, inl ((eq_iff target caller).0 self)), sym (ap (λ o. o.0) (rw self at h)))
  | inr other ↦ elim (Option-cases (get caller s.registry.handlers)) [
    | inl gone ↦ cc (rw (other, gone) at h)
    | inr (x, found) ↦ elim (Bool-cases (contains x.capabilities "Admin")) [
      | inl admin ↦ (
        (caller, refl, inr (x, found, admin)),
        sym (ap (λ o. o.0) (rw (other, found, admin) at h)),
      )
      | inr plain ↦ cc (rw (other, found, plain) at h)
    ]
  ]
]

-- A removal through the administrator's request that goes through was asked for by the handler
-- itself or by a registered handler with the capability `Admin`.
pub removal_is_allowed :
    (db : DbFaults) (caller_id : Option String) (params : Params) (target : String)
    (s s' : Dispatch) (b : Bool)
    → params "handler_id" ≡ some target
    → handle_admin_unregister_handler db caller_id (some params) s ≡ (s', ok b)
    → MayRemove caller_id target s
unfolding handle_admin_unregister_handler
removal_is_allowed db caller_id params target s s' b named h =
    let (s1, _, passed, _) =
      continue-eq-ok (require_admin_or_self caller_id (some target) s) _ (rw named at h) in
    (require_admin_or_self_sound caller_id target s s1 passed).0

-- ===== src/Dispatch/Gates.antt =====
-- What the gate of src/dispatch.rs lets through: messages leave the daemon only for handlers that
-- may send for the bot, within the rate.
use pacto_bot_api.Prelude.{
  ℕ, String, Bool, true, false, Option, none, some, ◌∷◌, ◌≡◌, refl, ◌⊎◌, inl, inr, string_eq,
  Option-cases, ap, ◌∙◌, sym, if◌then◌else◌,
}
use pacto_bot_api.Prelude.Dict.{get}
use pacto_bot_api.Errors.{Result, ok, err, unauthorized_bot}
use pacto_bot_api.Handlers.{is_authorized}
use pacto_bot_api.Limits.{RateLimiter, check}
use pacto_bot_api.Dispatch.State.{Dispatch, DirectMessage, continue, fail}
use pacto_bot_api.Dispatch.Responses.{admit, rate_limit, spent}
use pacto_bot_api.Dispatch.Sending.{Network, publish, handle_send_dm}

spent-eq-ok :
    (hid : String) (s s' : Dispatch) (x : String) (out : RateLimiter × Bool)
    → spent x s out ≡ (s', ok hid)
    → (x ≡ hid) × (out.1 ≡ true) × (s' ≡ record s { limiter = out.0 })
unfolding spent
spent-eq-ok hid s s' x (l, true) h = (cc, refl, cc)
spent-eq-ok hid s s' x (l, false) h = cc

module _ (clock now : ℕ) (bot_id : String) where
  abbrev Admitted : Option String → String → Dispatch → Dispatch → String → Type 0
  Admitted handler_id capability s s' hid =
      (handler_id ≡ some hid)
      × (is_authorized s.registry hid bot_id capability ≡ ok true)
      × ((check clock hid bot_id now s.limiter).1 ≡ true)
      × (s' ≡ record s { limiter = (check clock hid bot_id now s.limiter).0 })

  -- By what the registry answered for handler `x`.
  by_answer :
      (x capability : String) (s s' : Dispatch) (hid : String) (r : Result Bool)
      → is_authorized s.registry x bot_id capability ≡ r
      → continue (s, r) (λ b. if b then rate_limit clock now x bot_id else fail unauthorized_bot)
        ≡ (s', ok hid)
      → Admitted (some x) capability s s' hid
  unfolding rate_limit
  by_answer x capability s s' hid (err _) a h = cc
  by_answer x capability s s' hid (ok false) a h = cc
  by_answer x capability s s' hid (ok true) a h =
      let (same, allowed, moved) = spent-eq-ok hid s s' x (check clock x bot_id now s.limiter) h in
      (
        ap some same,
        ap (λ y. is_authorized s.registry y bot_id capability) (sym same) ∙ a,
        ap (λ y. (check clock y bot_id now s.limiter).1) (sym same) ∙ allowed,
        moved ∙ ap (λ y. record s { limiter = (check clock y bot_id now s.limiter).0 }) same,
      )

  -- A call that is admitted is authorized, and the rate limiter allowed it; only the limiter moved.
  pub admit-eq-ok :
      (handler_id : Option String) (capability : String) (s s' : Dispatch) (hid : String)
      → admit clock now handler_id bot_id capability s ≡ (s', ok hid)
      → Admitted handler_id capability s s' hid
  unfolding admit
  admit-eq-ok none capability s s' hid h = cc
  admit-eq-ok (some x) capability s s' hid h =
      by_answer x capability s s' hid (is_authorized s.registry x bot_id capability) refl h

  -- What the gate and the look-up of the bot leave of the log.
  rate_limit-sent :
      (hid : String) (s : Dispatch) (out : RateLimiter × Bool) → (spent hid s out).0.sent ≡ s.sent
  unfolding spent
  rate_limit-sent hid s (l, true) = refl
  rate_limit-sent hid s (l, false) = refl

  sent_after :
      (hid : String) (s : Dispatch) (r : Result Bool)
      → (continue
          (s, r)
          (λ b. if b then rate_limit clock now hid bot_id else fail unauthorized_bot)).0.sent
        ≡ s.sent
  unfolding rate_limit
  sent_after hid s (err _) = refl
  sent_after hid s (ok false) = refl
  sent_after hid s (ok true) = rate_limit-sent hid s (check clock hid bot_id now s.limiter)

  admit-sent :
      (handler_id : Option String) (capability : String) (s : Dispatch)
      → (admit clock now handler_id bot_id capability s).0.sent ≡ s.sent
  unfolding admit
  admit-sent none capability s = refl
  admit-sent (some hid) capability s =
      sent_after hid s (is_authorized s.registry hid bot_id capability)

-- Handler `hid` may send for the bot, and the rate limiter lets it.
abbrev pub MaySend : ℕ → ℕ → String → Option String → Dispatch → Type 0
MaySend clock now bot_id handler_id s =
    (hid : String) × (handler_id ≡ some hid)
    × (is_authorized s.registry hid bot_id "SendMessages" ≡ ok true)
    × ((check clock hid bot_id now s.limiter).1 ≡ true)

publish-sent :
    (net : Network) (m : DirectMessage) (s : Dispatch)
    → ((publish net m s).0.sent ≡ s.sent) ⊎ ((publish net m s).0.sent ≡ m ∷ s.sent)
unfolding publish
publish-sent net m s = elim (Option-cases (get m.from_bot s.bots)) [
  | inl e ↦ inl (rw e refl)
  | inr (b, e) ↦ inr (rw e refl)
]

module _ (net : Network) (clock now : ℕ) (m : DirectMessage) where
  abbrev Outcome : Option String → Dispatch → Dispatch → Type 0
  Outcome handler_id s s' =
      (s'.sent ≡ s.sent) ⊎ (MaySend clock now m.from_bot handler_id s × (s'.sent ≡ m ∷ s.sent))

  past_gate :
      (handler_id : Option String) (s : Dispatch) (out : Dispatch × Result String)
      → admit clock now handler_id m.from_bot "SendMessages" s ≡ out
      → Outcome handler_id s (continue out (λ hid. publish net m)).0
  past_gate handler_id s (s1, err e) a =
      inl (sym (ap (λ o. o.0.sent) a) ∙ admit-sent clock now m.from_bot handler_id "SendMessages" s)
  past_gate handler_id s (s1, ok hid) a =
      let unmoved =
        sym (ap (λ o. o.0.sent) a) ∙ admit-sent clock now m.from_bot handler_id "SendMessages" s in
      let (named, authorized, allowed, _) =
        admit-eq-ok clock now m.from_bot handler_id "SendMessages" s s1 hid a in
      elim (publish-sent net m s1) [
        | inl same ↦ inl (same ∙ unmoved)
        | inr more ↦ inr ((hid, named, authorized, allowed), more ∙ ap (λ l. m ∷ l) unmoved)
      ]

  -- A direct message: nothing reaches the Nostr client, or exactly this message does, and then the
  -- caller is a handler that may send for the bot and that the rate limiter lets pass.
  pub handle_send_dm_gated :
      (handler_id : Option String) (s : Dispatch)
      → ((handle_send_dm net clock now m handler_id s).0.sent ≡ s.sent)
        ⊎ (MaySend clock now m.from_bot handler_id s
            × ((handle_send_dm net clock now m handler_id s).0.sent ≡ m ∷ s.sent))
  unfolding handle_send_dm
  handle_send_dm_gated handler_id s =
      past_gate handler_id s (admit clock now handler_id m.from_bot "SendMessages" s) refl

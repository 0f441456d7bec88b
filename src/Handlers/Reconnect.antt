-- ===== src/Handlers/Reconnect.antt =====
-- `HandlerRegistry::reconnect` of src/handlers.rs: who may take over a registration, and what
-- that changes.
use pacto_bot_api.Prelude.{
  ℕ, String, true, false, some, List, ◌≡◌, refl, ap, sym, ◌∙◌, arith, string_eq, eq_iff,
}
use pacto_bot_api.Prelude.Dict.{get, insert, get-insert}
use pacto_bot_api.Errors.{
  ok, err, ok_or, bind-eq-ok, ok_or-eq-ok, handler_not_registered, handler_already_connected,
  invalid_reconnect_token,
}
use pacto_bot_api.Handlers.{
  HandlerRegistry, HandlerRef, ConnectionHandle, Channels, TokenCodec, is_connected, check_token,
  reconnect, attach, is_authorized,
}

-- The text decodes, and to the same bytes as the stored token.
abbrev pub SameToken : TokenCodec → String → String → Type 0
SameToken codec given stored =
    (bytes : List ℕ) × (codec.decode given ≡ some bytes) × (codec.decode stored ≡ some bytes)

check_token_sound :
    (codec : TokenCodec) (given stored : String)
    → check_token codec given stored ≡ ok tt
    → SameToken codec given stored
unfolding check_token
check_token_sound codec given stored h =
    let (cs, a, h₁) = bind-eq-ok (ok_or (codec.decode given) invalid_reconnect_token) _ h in
    let (bs, b, h₂) = bind-eq-ok (ok_or (codec.decode stored) invalid_reconnect_token) _ h₁ in
    let same : cs ≡ bs = (codec.ct_eq_iff cs bs).0 (ground arith) in
    (cs, ok_or-eq-ok _ _ a, ok_or-eq-ok _ _ b ∙ ap some (sym same))

check_token_complete :
    (codec : TokenCodec) (given stored : String)
    → SameToken codec given stored
    → check_token codec given stored ≡ ok tt
unfolding check_token
check_token_complete codec given stored (bytes, a, b) =
    rw (a, b, (codec.ct_eq_iff bytes bytes).1 refl)

module _ (codec : TokenCodec) (net : Channels) (now : ℕ) (r : HandlerRegistry)
    (handler_id token : String) (connection : ConnectionHandle) where
  -- A successful reconnection was for a registered handler with no live connection, and came with
  -- its token; the registry differs in that handler's connection, time and transport label only.
  pub reconnect_sound :
      (id : String) (r' : HandlerRegistry)
      → reconnect codec net now r handler_id token connection ≡ ok (id, r')
      → (h : HandlerRef) × (get handler_id r.handlers ≡ some h)
        × (is_connected net h ≡ false)
        × SameToken codec token h.reconnect_token
        × (id ≡ handler_id)
        × (r'.handlers ≡ insert handler_id (attach now connection h) r.handlers)
  unfolding reconnect
  reconnect_sound id r' done =
      let (h, found, h₁) =
        bind-eq-ok (ok_or (get handler_id r.handlers) handler_not_registered) _ done in
      let dead : is_connected net h ≡ false = ground arith in
      let checked : check_token codec token h.reconnect_token ≡ ok tt = ground arith in
      (
        h,
        ok_or-eq-ok _ _ found,
        dead,
        check_token_sound codec token h.reconnect_token checked,
        ground arith,
        ground arith,
      )

  -- A handler with no live connection gets in with its token.
  pub reconnect_complete :
      (h : HandlerRef)
      → get handler_id r.handlers ≡ some h
      → is_connected net h ≡ false
      → SameToken codec token h.reconnect_token
      → reconnect codec net now r handler_id token connection
        ≡ ok (
          handler_id,
          record { handlers = insert handler_id (attach now connection h) r.handlers },
        )
  unfolding reconnect
  reconnect_complete h found dead same =
      rw (found, dead, check_token_complete codec token h.reconnect_token same)

  -- A live connection is never taken over, whatever the token.
  pub no_live_takeover :
      (h : HandlerRef)
      → get handler_id r.handlers ≡ some h
      → is_connected net h ≡ true
      → reconnect codec net now r handler_id token connection ≡ err handler_already_connected
  unfolding reconnect
  no_live_takeover h found live = rw (found, live)

  -- Nobody's rights change by a reconnection, and none are looked up again in the configuration.
  pub is_authorized-reconnect :
      (id : String) (r' : HandlerRegistry) (k b c : String)
      → reconnect codec net now r handler_id token connection ≡ ok (id, r')
      → is_authorized r' k b c ≡ is_authorized r k b c
  unfolding is_authorized
  is_authorized-reconnect id r' k b c done =
      let (h, found, _, _, _, entered) = reconnect_sound id r' done in
      ground (
        arith,
        ap (get k) entered,
        get-insert handler_id k (attach now connection h) r.handlers,
        eq_iff handler_id k,
      )

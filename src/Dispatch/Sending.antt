-- ===== src/Dispatch/Sending.antt =====
-- `handle_send_dm` of src/dispatch.rs, by which replies and direct messages leave the daemon.
use pacto_bot_api.Prelude.{ℕ, String, Option, ◌∷◌, string_eq}
use pacto_bot_api.Prelude.Dict.{get}
use pacto_bot_api.Errors.{Result, ok_or, unknown_bot}
use pacto_bot_api.Dispatch.State.{DirectMessage, Exec, ◌>>=◌, ◌>>◌, lift, gets, modify}
use pacto_bot_api.Dispatch.Responses.{admit}

-- The Nostr client: the id of the event that it published, or its error.
abbrev pub Network : Type 0
Network = DirectMessage → Result String

-- The end of `handle_send_dm`, past the gate.
unfoldable pub publish : Network → DirectMessage → Exec String
publish net message = do
  s ← gets (λ s. s)
  bot ← lift (ok_or (get message.from_bot s.bots) (unknown_bot message.from_bot))
  modify (λ s. record s { sent = message ∷ s.sent })
  lift (net message)

-- `Dispatch::handle_send_dm`
unfoldable pub handle_send_dm : Network → ℕ → ℕ → DirectMessage → Option String → Exec String
unfolding admit publish
handle_send_dm net clock now message handler_id = do
  hid ← admit clock now handler_id message.from_bot "SendMessages"
  publish net message

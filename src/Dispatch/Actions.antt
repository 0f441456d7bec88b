-- ===== src/Dispatch/Actions.antt =====
-- `HandlerAction` of src/dispatch.rs as read from a `handler.response`. A JSON object enters as
-- the function that reads its text fields, `value.get(field).and_then(Value::as_str)`.
use pacto_bot_api.Prelude.{String, Option, [], ◌∷◌, ◌==◌, string_eq, if◌then◌else◌, format}
use pacto_bot_api.Errors.{Result, ok, err, ok_or, config, ◌>>=◌}
use pacto_bot_api.Dispatch.State.{HandlerAction, ack, reply, send_dm, defer, ignore}

abbrev pub Params : Type 0
Params = String → Option String

-- `HandlerAction::action_label`
unfoldable pub action_label : HandlerAction → String
action_label ack = "ack"
action_label (reply _) = "reply"
action_label (send_dm _) = "send_dm"
action_label defer = "defer"
action_label ignore = "ignore"

-- `HandlerAction::from_value`
unfoldable pub from_value : Params → Result HandlerAction
from_value value = do
  action ← ok_or (value "action") (config "handler.response missing action")
  if action == "ack"
      then ok ack
      else if action == "reply"
      then (do
        content ← ok_or (value "content") (config "handler.response reply missing content")
        ok (reply content))
      else if action == "send_dm"
      then (do
        content ← ok_or (value "content") (config "handler.response send_dm missing content")
        ok (send_dm content))
      else if action == "defer"
      then ok defer
      else if action == "ignore"
      then ok ignore
      else err (config (format ("invalid handler action: " ∷ action ∷ [])))

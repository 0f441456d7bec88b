-- ===== src/Scaffold/Compose.antt =====
-- `append_compose_services` of src/scaffold/merge.rs: the service of a further bot in the
-- `docker-compose.yml` of a project.
use pacto_bot_api.Prelude.{
  String, Bool, false, Option, none, some, [], ◌∷◌, ◌==◌, string_eq, pair_eq, if◌then◌else◌, format,
}
use pacto_bot_api.Prelude.Dict.{get}
use pacto_bot_api.Errors.{Result, ok, err, ok_or, io, config, ◌>>=◌}
use pacto_bot_api.Scaffold.{
  PathName, Files, MergeContext, Value, text, sequence, mapping, nil, cons, Fields, end, field,
  copy, write_decided,
}

-- Whether a key is this text.
unfoldable pub is_text : String → Value → Bool
is_text name (text s) = s == name
is_text name _ = false

-- `Mapping::insert` under a text: a field that is there is replaced in place.
unfoldable pub put_field : String → Value → Fields → Fields
unfolding is_text
put_field name v end = field (text name) v end
put_field name v (field k w fs) =
    let rest = put_field name v fs in if is_text name k then field k v fs else field k w rest

-- `Value::as_mapping_mut`
abbrev as_mapping : Value → Option Fields
as_mapping (mapping fs) = some fs
as_mapping _ = none

-- `get_mut("services")`, where it is a mapping.
unfoldable pub services_in : Fields → Option Fields
unfolding is_text
services_in end = none
services_in (field k v fs) =
    let rest = services_in fs in if is_text "services" k then as_mapping v else rest

abbrev entry : String → String → Fields → Fields
entry k v fs = field (text k) (text v) fs

-- `bot_service`
unfoldable pub bot_service : String → Value
bot_service bot_id = mapping (
    field (text "build")
      (mapping (
        entry "context" "."
          (entry "dockerfile" (format ("./bots/" ∷ bot_id ∷ "/Dockerfile" ∷ [])) end)))
      (field (text "environment")
        (mapping (
          entry "PACTO_TRANSPORT" "unix"
            (entry "PACTO_SOCKET_PATH" "/run/pacto/pacto-bot-api.sock" end)))
        (field (text "volumes") (sequence (cons (text "pacto-socket:/run/pacto:ro") nil)) (
          field (text "depends_on")
            (mapping
              (field (text "daemon") (mapping (entry "condition" "service_started" end)) end))
            (entry "restart" "on-failure" end)))))

abbrev with_service : String → Fields → Option Fields → Result Value
with_service bot_id fs none = err (config "docker-compose.yml missing services mapping")
with_service bot_id fs (some services) =
    ok
      (mapping (put_field "services" (mapping (put_field bot_id (bot_service bot_id) services)) fs))

-- The service of the bot among the services; one of that name is replaced.
unfoldable pub add_service : String → Value → Result Value
unfolding put_field services_in bot_service
add_service bot_id (mapping fs) = with_service bot_id fs (services_in fs)
add_service bot_id _ = err (config "docker-compose.yml missing services mapping")

-- The new text of the file.
unfoldable pub updated : MergeContext → Option String → Result String
unfolding add_service
updated ctx none = err (io "read_to_string")
updated ctx (some raw) = do
  compose ← ok_or (ctx.from_str raw) (config "invalid docker-compose.yml")
  extended ← add_service ctx.bot_id compose
  ok_or (ctx.to_string extended) (config "failed to serialize docker-compose.yml")

abbrev pub append_updated :
    MergeContext → PathName → Files → Result String → Files × Result (Unit {0})
append_updated ctx path fs (err e) = (fs, err e)
append_updated ctx path fs (ok content) =
    let (now, outcome) = write_decided ctx path content fs in (now, outcome >>= λ _. ok tt)

-- `append_compose_services`: the rendered file if there is none, and else the file that is there with
-- the service in it, if that may be overwritten.
unfoldable pub append_compose_services :
    MergeContext → PathName → String → Files → Files × Result (Unit {0})
unfolding copy updated write_decided
append_compose_services ctx path rendered fs = elim (get path fs) [
  | none ↦ copy (ctx.copying path) path rendered fs
  | some content ↦ append_updated ctx path fs (updated ctx content)
]

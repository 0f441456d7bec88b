-- ===== src/Errors/Tests.antt =====
-- Tests of src/errors.rs, and the theorems about it at concrete errors.
use pacto_bot_api.Prelude.{◌≡◌, refl, arith}
use pacto_bot_api.Errors.{DaemonError, neg, to_json_rpc_code, to_json_rpc_error}
use pacto_bot_api.Errors.Codes.{kind, code_names_variant, code-to_json_rpc_error}

abbrev echo_missing : DaemonError
echo_missing = DaemonError.unknown_bot "echo"

abbrev joke_missing : DaemonError
joke_missing = DaemonError.unknown_bot "joke"

code_names_variant_test : kind echo_missing ≡ kind joke_missing
unfolding to_json_rpc_code
code_names_variant_test = code_names_variant echo_missing joke_missing tt tt (omega arith) refl

echo_missing_keeps_code :
    (to_json_rpc_error (λ _. "unknown bot: echo") echo_missing).code ≡ to_json_rpc_code echo_missing
echo_missing_keeps_code = code-to_json_rpc_error (λ _. "unknown bot: echo") echo_missing

io_code : to_json_rpc_code (DaemonError.io "broken pipe") ≡ neg 32600
unfolding to_json_rpc_code
io_code = refl

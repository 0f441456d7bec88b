-- ===== src/Dispatch/Tests/Restarts.antt =====
-- A restart of the daemon of src/dispatch.rs after the handler of the bot `echo` was saved.
use pacto_bot_api.Prelude.{true, some, [], contains, ◌≡◌, refl, string_eq}
use pacto_bot_api.Prelude.Dict.{get}
use pacto_bot_api.Errors.{ok}
use pacto_bot_api.Handlers.{empty, is_authorized, allows}
use pacto_bot_api.Handlers.Tests.{echo_handler}
use pacto_bot_api.Dispatch.{save_row, restore_handlers}
use pacto_bot_api.Dispatch.Restoring.{reopened, restore-save}
use pacto_bot_api.Dispatch.Tests.{no_faults, daemon}

restore-save_example :
    let restarted =
      (restore_handlers no_faults (record (daemon empty 0 []) {
        tables = save_row echo_handler (daemon empty 0 []).tables;
        registry = empty;
      })).0 in
    (get "h1" restarted.registry.handlers ≡ some (reopened echo_handler))
    × (is_authorized restarted.registry "h1" "echo" "SendMessages"
        ≡ ok (allows echo_handler "echo" "SendMessages"))
restore-save_example =
    restore-save no_faults echo_handler (daemon empty 0 []) "echo" "SendMessages" refl

has_right : allows echo_handler "echo" "SendMessages" ≡ true
unfolding allows contains
has_right = refl

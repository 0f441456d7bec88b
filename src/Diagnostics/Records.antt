-- ===== src/Diagnostics/Records.antt =====
-- The error buffer of src/diagnostics.rs, and `classify_sole_admin`. What `redact_secrets` leaves of
-- a message is an argument.
use pacto_bot_api.Prelude.{
  ℕ, String, Bool, ◌&&◌, Option, none, some, List, [], ◌∷◌, ◌++◌, length, leb, nat_beq,
  if◌then◌else◌,
}

pub data SoleAdminBucket : Type 0 where
  repairable_now unrestorable admin_set_unknown : SoleAdminBucket

-- `classify_sole_admin`
unfoldable pub classify_sole_admin : Bool → ℕ → Bool → Option SoleAdminBucket
classify_sole_admin state_lost harvested_admin_count bot_reset_was_r26 =
    if nat_beq harvested_admin_count 1
    then some (if state_lost then unrestorable else repairable_now)
    else if nat_beq harvested_admin_count 0 && (state_lost && bot_reset_was_r26)
    then some admin_set_unknown
    else none

pub record ErrorRecord : Type 0 where
  pub code : String
  pub message : String
  pub details : Option String

-- `ERROR_BUFFER_CAPACITY`
abbrev pub error_buffer_capacity : ℕ
error_buffer_capacity = 32

-- `pop_front`
unfoldable pub pop_front : List ErrorRecord → List ErrorRecord
pop_front [] = []
pop_front (e ∷ es) = es

abbrev pub code_or_unknown : Option String → String
code_or_unknown none = "unknown"
code_or_unknown (some c) = c

abbrev pub redacted : (String → String) → Option String → Option String
redacted redact none = none
redacted redact (some t) = some (redact t)

-- `Diagnostics::record_error`, on the buffer; `details` is the JSON text of the data.
unfoldable pub record_error :
    (String → String) → Option String → String → Option String → List ErrorRecord → List ErrorRecord
unfolding pop_front
record_error redact code message details errors =
    (if leb error_buffer_capacity (length errors) then pop_front errors else errors)
    ++ (record {
      code = code_or_unknown code;
      message = redact message;
      details = redacted redact details;
    }
        ∷ [])

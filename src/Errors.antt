-- ===== src/Errors.antt =====
-- src/errors.rs: the daemon's errors, the JSON-RPC error object, and the codes on the wire.
-- A payload whose type belongs to another crate (an I/O, TOML, JSON, SQLite, migration or
-- entropy error) is kept as the text that it displays.
pub mod Codes
mod Tests
use pacto_bot_api.Prelude.{◌≡◌, refl, ℕ, zero, suc, String, Option, none, some}
use pacto_bot_api.Nostr.{Event}

-- `i32`; every code that the daemon itself assigns is negative.
pub data ℤ : Type 0 where
  pos : ℕ → ℤ
  negsuc : ℕ → ℤ

abbrev pub neg : ℕ → ℤ
neg zero = pos 0
neg (suc n) = negsuc n

pub record JsonRpcError : Type 0 where
  pub code : ℤ
  pub message : String
  pub payload : Option String

-- `JsonRpcError::new`
unfoldable pub new_error : ℤ → String → JsonRpcError
new_error code message = record { code = code; message = message; payload = none }

-- src/mls.rs `MlsError`
pub data MlsError : Type 0 where
  storage io rusqlite engine : String → MlsError
  group_not_found not_initialized group_poisoned crypto_error : MlsError
  invalid_key_package peer_version_mismatch : MlsError
  restoration_incomplete : Event → MlsError
  insecure_path key : String → MlsError
  worker_disconnected : MlsError

pub data DaemonError : Type 0 where
  io config toml json nostr bunker sqlite migration : String → DaemonError
  json_rpc : JsonRpcError → DaemonError
  json_rpc_parse_error invalid_json_rpc_request : String → DaemonError
  mls_engine_not_configured mls_group_already_exists mls_group_not_found : DaemonError
  mls : MlsError → DaemonError
  unknown_bot : String → DaemonError
  handler_not_registered handler_backpressure operation_timed_out : DaemonError
  invalid_event_type : String → DaemonError
  stale_key_package : DaemonError
  key_package_not_found : String → DaemonError
  invalid_key_package rate_limited handler_already_connected invalid_reconnect_token : DaemonError
  unauthorized_bot method_not_found handler_not_dispatched : DaemonError
  method_not_supported : String → DaemonError
  frame_too_large : DaemonError
  attachment_too_large : ℕ → DaemonError
  attachment_path_rejected : DaemonError
  attachment_invalid blob_upload_failed : String → DaemonError
  invalid_reaction spool_entry_missing : DaemonError
  token_generation : String → DaemonError
  mls_group_state_lost mls_engine_unavailable peer_version_mismatch : DaemonError
  mls_restoration_incomplete mls_group_repair_prerequisite : String → DaemonError

-- `DaemonError::to_json_rpc_code`
unfoldable pub to_json_rpc_code : DaemonError → ℤ
to_json_rpc_code (unknown_bot _) = neg 32000
to_json_rpc_code handler_not_registered = neg 32001
to_json_rpc_code handler_backpressure = neg 32011
to_json_rpc_code (invalid_event_type _) = neg 32002
to_json_rpc_code (bunker _) = neg 32003
to_json_rpc_code (nostr _) = neg 32004
to_json_rpc_code rate_limited = neg 32005
to_json_rpc_code operation_timed_out = neg 32012
to_json_rpc_code stale_key_package = neg 32016
to_json_rpc_code (key_package_not_found _) = neg 32017
to_json_rpc_code invalid_key_package = neg 32018
to_json_rpc_code (attachment_too_large _) = neg 32019
to_json_rpc_code attachment_path_rejected = neg 32020
to_json_rpc_code (attachment_invalid _) = neg 32021
to_json_rpc_code (blob_upload_failed _) = neg 32022
to_json_rpc_code invalid_reaction = neg 32023
to_json_rpc_code spool_entry_missing = neg 32024
to_json_rpc_code mls_group_state_lost = neg 32026
to_json_rpc_code peer_version_mismatch = neg 32025
to_json_rpc_code mls_engine_unavailable = neg 32028
to_json_rpc_code (mls_restoration_incomplete _) = neg 32027
to_json_rpc_code (mls_group_repair_prerequisite _) = neg 32029
to_json_rpc_code mls_engine_not_configured = neg 32013
to_json_rpc_code mls_group_already_exists = neg 32014
to_json_rpc_code mls_group_not_found = neg 32015
to_json_rpc_code unauthorized_bot = neg 32006
to_json_rpc_code handler_already_connected = neg 32007
to_json_rpc_code invalid_reconnect_token = neg 32008
to_json_rpc_code handler_not_dispatched = neg 32010
to_json_rpc_code (json_rpc e) = e.code
to_json_rpc_code (json_rpc_parse_error _) = neg 32700
to_json_rpc_code (invalid_json_rpc_request _) = neg 32600
to_json_rpc_code method_not_found = neg 32601
to_json_rpc_code (method_not_supported _) = neg 32009
to_json_rpc_code frame_too_large = neg 32600
to_json_rpc_code (json _) = neg 32600
to_json_rpc_code (io _) = neg 32600
to_json_rpc_code (token_generation _) = neg 32603
to_json_rpc_code (config _) = neg 32602
to_json_rpc_code (toml _) = neg 32602
to_json_rpc_code (sqlite _) = neg 32603
to_json_rpc_code (mls _) = neg 32603
to_json_rpc_code (migration _) = neg 32603

-- `impl From<MlsError> for DaemonError`
unfoldable pub from_mls_error : MlsError → DaemonError
from_mls_error group_not_found = mls_group_not_found
from_mls_error MlsError.invalid_key_package = DaemonError.invalid_key_package
from_mls_error MlsError.peer_version_mismatch = DaemonError.peer_version_mismatch
from_mls_error other = mls other

-- `impl From<DaemonError> for JsonRpcError`; `display` stands for the `Display` that `thiserror`
-- derives.
unfoldable pub to_json_rpc_error : (DaemonError → String) → DaemonError → JsonRpcError
unfolding to_json_rpc_code new_error
to_json_rpc_error display (json_rpc e) = e
to_json_rpc_error display other = new_error (to_json_rpc_code other) (display other)

pub data Result {ℓ} (A : Type ℓ) : Type ℓ where
  ok : A → Result A
  err : DaemonError → Result A

-- `Option::ok_or`
abbrev pub ok_or {ℓ} : {A : Type ℓ} → Option A → DaemonError → Result A
ok_or none e = err e
ok_or (some a) e = ok a

pub ok_or-eq-ok {ℓ} :
    {A : Type ℓ} (o : Option A) (e : DaemonError) {a : A} → ok_or o e ≡ ok a → o ≡ some a
ok_or-eq-ok none e h = cc
ok_or-eq-ok (some a) e h = cc

-- The operator `?`: an error is passed on, a value goes to what follows.
infixl 5 ◌>>=◌ ◌>>◌
abbrev pub ◌>>=◌ {κ ℓ} : {S : Type κ} {T : Type ℓ} → Result S → (S → Result T) → Result T
err failed >>= next = err failed
ok value >>= next = next value

abbrev pub ◌>>◌ {ℓ} : {T : Type ℓ} → Result (Unit {0}) → Result T → Result T
first >> next = first >>= λ _. next

-- What succeeded as a whole succeeded in its first step.
pub bind-eq-ok {κ ℓ} :
    {S : Type κ} {T : Type ℓ} (first : Result S) (next : S → Result T) {out : T}
    → (first >>= next) ≡ ok out
    → (value : S) × (first ≡ ok value) × (next value ≡ ok out)
bind-eq-ok (err failed) next h = cc
bind-eq-ok (ok value) next h = (value, refl, h)

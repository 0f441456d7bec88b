-- ===== src/Errors/Codes.antt =====
-- The codes of src/errors.rs: those of the daemon's own range name the variant they came from.
use pacto_bot_api.Prelude.{
  ℕ, ◌≤◌, ◌-◌, ◌≡◌, refl, ap, subst, Option, none, some, arith, String, get_elem?, List, [], ◌∷◌,
}
use pacto_bot_api.Errors.{
  ℤ, pos, negsuc, DaemonError, to_json_rpc_code, to_json_rpc_error, new_error,
}

-- The variant of an error, numbered in the order of the declaration.
abbrev pub kind : DaemonError → ℕ
kind (DaemonError.io _) = 0
kind (DaemonError.config _) = 1
kind (DaemonError.toml _) = 2
kind (DaemonError.json _) = 3
kind (DaemonError.nostr _) = 4
kind (DaemonError.bunker _) = 5
kind (DaemonError.sqlite _) = 6
kind (DaemonError.migration _) = 7
kind (DaemonError.json_rpc _) = 8
kind (DaemonError.json_rpc_parse_error _) = 9
kind (DaemonError.invalid_json_rpc_request _) = 10
kind DaemonError.mls_engine_not_configured = 11
kind DaemonError.mls_group_already_exists = 12
kind DaemonError.mls_group_not_found = 13
kind (DaemonError.mls _) = 14
kind (DaemonError.unknown_bot _) = 15
kind DaemonError.handler_not_registered = 16
kind DaemonError.handler_backpressure = 17
kind DaemonError.operation_timed_out = 18
kind (DaemonError.invalid_event_type _) = 19
kind DaemonError.stale_key_package = 20
kind (DaemonError.key_package_not_found _) = 21
kind DaemonError.invalid_key_package = 22
kind DaemonError.rate_limited = 23
kind DaemonError.handler_already_connected = 24
kind DaemonError.invalid_reconnect_token = 25
kind DaemonError.unauthorized_bot = 26
kind DaemonError.method_not_found = 27
kind DaemonError.handler_not_dispatched = 28
kind (DaemonError.method_not_supported _) = 29
kind DaemonError.frame_too_large = 30
kind (DaemonError.attachment_too_large _) = 31
kind DaemonError.attachment_path_rejected = 32
kind (DaemonError.attachment_invalid _) = 33
kind (DaemonError.blob_upload_failed _) = 34
kind DaemonError.invalid_reaction = 35
kind DaemonError.spool_entry_missing = 36
kind (DaemonError.token_generation _) = 37
kind DaemonError.mls_group_state_lost = 38
kind DaemonError.mls_engine_unavailable = 39
kind DaemonError.peer_version_mismatch = 40
kind (DaemonError.mls_restoration_incomplete _) = 41
kind (DaemonError.mls_group_repair_prerequisite _) = 42

-- Not an error object that is passed through with a code of its own.
abbrev pub IsAssigned : DaemonError → Type 0
IsAssigned (DaemonError.json_rpc _) = ⊥
IsAssigned _ = Unit

-- The codes from -32000 down to -32029.
abbrev pub InOwnRange : ℤ → Type 0
InOwnRange (pos _) = ⊥
InOwnRange (negsuc n) = (31999 ≤ n) × (n ≤ 32028)

-- The variants in the order of their codes, from -32000 down.
abbrev variants : List ℕ
variants =
    15 ∷ 16 ∷ 19 ∷ 5 ∷ 4 ∷ 23 ∷ 26 ∷ 24 ∷ 25 ∷ 29 ∷ 28 ∷ 17 ∷ 18 ∷ 11 ∷ 12 ∷ 13 ∷ 20 ∷ 21 ∷ 22 ∷ 31
    ∷ 32 ∷ 33 ∷ 34 ∷ 35 ∷ 36 ∷ 40 ∷ 38 ∷ 41 ∷ 39 ∷ 42 ∷ []

abbrev variant_at : ℤ → Option ℕ
variant_at (pos _) = none
variant_at (negsuc n) = get_elem? variants (n - 31999)

variant_at-code :
    (e : DaemonError)
    → IsAssigned e
    → InOwnRange (to_json_rpc_code e)
    → variant_at (to_json_rpc_code e) ≡ some (kind e)
unfolding to_json_rpc_code
variant_at-code (DaemonError.io _) a h = absurd (omega arith)
variant_at-code (DaemonError.config _) a h = absurd (omega arith)
variant_at-code (DaemonError.toml _) a h = absurd (omega arith)
variant_at-code (DaemonError.json _) a h = absurd (omega arith)
variant_at-code (DaemonError.nostr _) a h = refl
variant_at-code (DaemonError.bunker _) a h = refl
variant_at-code (DaemonError.sqlite _) a h = absurd (omega arith)
variant_at-code (DaemonError.migration _) a h = absurd (omega arith)
variant_at-code (DaemonError.json_rpc _) a h = elim a [ ]
variant_at-code (DaemonError.json_rpc_parse_error _) a h = absurd (omega arith)
variant_at-code (DaemonError.invalid_json_rpc_request _) a h = absurd (omega arith)
variant_at-code DaemonError.mls_engine_not_configured a h = refl
variant_at-code DaemonError.mls_group_already_exists a h = refl
variant_at-code DaemonError.mls_group_not_found a h = refl
variant_at-code (DaemonError.mls _) a h = absurd (omega arith)
variant_at-code (DaemonError.unknown_bot _) a h = refl
variant_at-code DaemonError.handler_not_registered a h = refl
variant_at-code DaemonError.handler_backpressure a h = refl
variant_at-code DaemonError.operation_timed_out a h = refl
variant_at-code (DaemonError.invalid_event_type _) a h = refl
variant_at-code DaemonError.stale_key_package a h = refl
variant_at-code (DaemonError.key_package_not_found _) a h = refl
variant_at-code DaemonError.invalid_key_package a h = refl
variant_at-code DaemonError.rate_limited a h = refl
variant_at-code DaemonError.handler_already_connected a h = refl
variant_at-code DaemonError.invalid_reconnect_token a h = refl
variant_at-code DaemonError.unauthorized_bot a h = refl
variant_at-code DaemonError.method_not_found a h = absurd (omega arith)
variant_at-code DaemonError.handler_not_dispatched a h = refl
variant_at-code (DaemonError.method_not_supported _) a h = refl
variant_at-code DaemonError.frame_too_large a h = absurd (omega arith)
variant_at-code (DaemonError.attachment_too_large _) a h = refl
variant_at-code DaemonError.attachment_path_rejected a h = refl
variant_at-code (DaemonError.attachment_invalid _) a h = refl
variant_at-code (DaemonError.blob_upload_failed _) a h = refl
variant_at-code DaemonError.invalid_reaction a h = refl
variant_at-code DaemonError.spool_entry_missing a h = refl
variant_at-code (DaemonError.token_generation _) a h = absurd (omega arith)
variant_at-code DaemonError.mls_group_state_lost a h = refl
variant_at-code DaemonError.mls_engine_unavailable a h = refl
variant_at-code DaemonError.peer_version_mismatch a h = refl
variant_at-code (DaemonError.mls_restoration_incomplete _) a h = refl
variant_at-code (DaemonError.mls_group_repair_prerequisite _) a h = refl

-- Two errors of the daemon whose codes agree and lie between -32029 and -32000 are of the same
-- variant, neither being an error object that is passed through.
pub code_names_variant :
    (a b : DaemonError)
    → IsAssigned a
    → IsAssigned b
    → InOwnRange (to_json_rpc_code a)
    → to_json_rpc_code a ≡ to_json_rpc_code b
    → kind a ≡ kind b
code_names_variant a b ha hb r e =
    cc (variant_at-code a ha r, variant_at-code b hb (subst InOwnRange e r), ap variant_at e)

-- The error object that goes to a handler carries the code of the error, whatever the text.
pub code-to_json_rpc_error :
    (display : DaemonError → String) (e : DaemonError)
    → (to_json_rpc_error display e).code ≡ to_json_rpc_code e
unfolding to_json_rpc_error to_json_rpc_code new_error
code-to_json_rpc_error display e = ground arith

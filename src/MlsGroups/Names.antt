-- ===== src/MlsGroups/Names.antt =====
-- `Dispatch::validate_group_name` of src/dispatch.rs, over the characters of the name.
use Prim.Native.Char.{Char, code, len_utf8}
use pacto_bot_api.Prelude.{
  ℕ, ◌+◌, String, Bool, false, ◌&&◌, ◌||◌, ltb, ◌==◌, nat_eq, string_eq, if◌then◌else◌,
}
use pacto_bot_api.Errors.{Result, ok, err, invalid_json_rpc_request}

-- `u8::is_ascii_whitespace`
unfoldable pub is_ascii_whitespace : Char → Bool
is_ascii_whitespace c = code c == 32 || code c == 9 || code c == 10 || code c == 12 || code c == 13

-- `char::is_ascii_control`, `/` and `\`.
unfoldable pub is_refused : Char → Bool
is_refused c = ltb (code c) 32 || code c == 127 || code c == 47 || code c == 92

unfoldable pub trim_start : String → String
unfolding is_ascii_whitespace
trim_start String.[] = String.[]
trim_start (String.◌∷◌ c s) =
    let rest = trim_start s in if is_ascii_whitespace c then rest else String.◌∷◌ c s

unfoldable pub trim_end : String → String
unfolding is_ascii_whitespace
trim_end String.[] = String.[]
trim_end (String.◌∷◌ c s) =
    let rest = trim_end s in
    if is_ascii_whitespace c && rest == "" then String.[] else String.◌∷◌ c rest

-- `str::trim_ascii`
unfoldable pub trim_ascii : String → String
unfolding trim_start trim_end
trim_ascii s = trim_end (trim_start s)

-- `str::len`: bytes.
unfoldable pub byte_len : String → ℕ
byte_len String.[] = 0
byte_len (String.◌∷◌ c s) = len_utf8 c + byte_len s

unfoldable pub any_refused : String → Bool
unfolding is_refused
any_refused String.[] = false
any_refused (String.◌∷◌ c s) = is_refused c || any_refused s

-- The three tests, on the trimmed name.
unfoldable pub check_trimmed : String → Result String
unfolding byte_len any_refused
check_trimmed trimmed =
    if trimmed == ""
    then err (invalid_json_rpc_request "group_name must not be empty")
    else if ltb 128 (byte_len trimmed)
    then err (invalid_json_rpc_request "group_name must not exceed 128 characters")
    else if any_refused trimmed
    then err (
        invalid_json_rpc_request
          "group_name must not contain control characters or path separators")
    else ok trimmed

-- `Dispatch::validate_group_name`
unfoldable pub validate_group_name : String → Result String
unfolding trim_ascii check_trimmed
validate_group_name name = check_trimmed (trim_ascii name)

-- ===== src/Reset/StoreKey.antt =====
-- src/mls_key.rs: reading the key of a store. A key is its list of bytes.
use pacto_bot_api.Prelude.{
  ℕ, ◌%◌, String, none, some, List, string_eq, format, if◌then◌else◌, nat_beq, length, [], ◌∷◌,
}
use pacto_bot_api.Prelude.Dict.{Dict, get}
use pacto_bot_api.Reset.Io.{File}

-- `MlsKeyError`
pub data MlsKeyError : Type 0 where
  io : MlsKeyError
  permission_too_open : String → ℕ → MlsKeyError
  invalid_length : String → ℕ → MlsKeyError

-- `Result<Option<[u8; 32]>, MlsKeyError>`
pub data Loaded : Type 0 where
  absent : Loaded
  loaded : List ℕ → Loaded
  unusable : MlsKeyError → Loaded

-- `key_path_for_store`
abbrev pub key_path_for_store : String → String
key_path_for_store store_path = format (store_path ∷ ".key" ∷ [])

-- `mode & 0o077`, the low six of the permission bits.
abbrev open_bits : ℕ → ℕ
open_bits mode = mode % 64

abbrev check_length : String → List ℕ → Loaded
check_length key_path bytes =
    if nat_beq (length bytes) 32
    then loaded bytes
    else unusable (invalid_length key_path (length bytes))

abbrev read_file : String → File → Loaded
read_file key_path f =
    if nat_beq (open_bits f.mode) 0
    then (if f.readable then check_length key_path f.bytes else unusable io)
    else unusable (permission_too_open key_path (f.mode % 512))

-- `load_at`
unfoldable pub load_at : String → Dict String File → Loaded
load_at key_path live = elim (get key_path live) [ none ↦ absent | some f ↦ read_file key_path f ]

-- `load`
unfoldable pub load : String → Dict String File → Loaded
unfolding load_at
load store_path live = load_at (key_path_for_store store_path) live

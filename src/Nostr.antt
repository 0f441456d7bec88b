-- ===== src/Nostr.antt =====
-- The events of the nostr crate, as far as the code reads them, with their bytes, keys and ids as
-- texts. The client of src/nostr.rs that fetches key packages is in the child modules.
pub mod KeyPackages
pub mod Fetched
mod Tests
use pacto_bot_api.Prelude.{ℕ, String, List}

-- `nostr::PublicKey`, as its hex text.
abbrev pub PublicKey : Type 0
PublicKey = String

-- `nostr::Event`
pub record Event : Type 0 where
  pub id : String
  pub pubkey : PublicKey
  pub created_at : ℕ
  pub kind : ℕ
  pub tags : List (List String)
  pub content : String
  pub sig : String

-- `nostr::UnsignedEvent`, a rumor, without its id.
pub record UnsignedEvent : Type 0 where
  pub pubkey : PublicKey
  pub created_at : ℕ
  pub kind : ℕ
  pub tags : List (List String)
  pub content : String

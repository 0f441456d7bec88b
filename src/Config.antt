-- ===== src/Config.antt =====
-- src/config.rs: the configuration of a bot. Paths and secrets are texts.
use pacto_bot_api.Prelude.{ℕ, String, Option, none, some, List}

pub data SigningConfig : Type 0 where
  nsec bunker_local bunker_remote : String → SigningConfig

-- `SigningConfig::backend_label`
unfoldable pub backend_label : SigningConfig → String
backend_label (nsec _) = "nsec"
backend_label (bunker_local _) = "bunker_local"
backend_label (bunker_remote _) = "bunker_remote"

pub record BotConfig : Type 0 where
  pub id : String
  pub npub : String
  pub signing : SigningConfig
  pub relays : List String
  pub capabilities : List String
  pub display_name : Option String
  pub about : Option String
  pub picture : Option String
  pub mls_dedup_window_secs : Option ℕ
  pub mls_db_path : Option String
  pub mls_key_package_freshness_secs : Option ℕ

-- `BotConfig::dedup_window`
unfoldable pub dedup_window : BotConfig → ℕ
dedup_window c = elim c.mls_dedup_window_secs [ none ↦ 900 | some w ↦ w ]

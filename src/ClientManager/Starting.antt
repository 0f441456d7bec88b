-- ===== src/ClientManager/Starting.antt =====
-- `construct_mls_bot_state` of src/client_manager.rs, past the validation of the store's path: the
-- reset of the store, the engine, the KeyPackage and the reconciliation.
use pacto_bot_api.Prelude.{ℕ, String, Bool, Option, List, string_eq}
use pacto_bot_api.Prelude.Dict.{Dict}
use pacto_bot_api.Errors.{Result, ok, err, engine}
use pacto_bot_api.Db.Tables.{Tables}
use pacto_bot_api.Reset.Io.{
  File, ArchiveName, Io, done, stopped, ◌>>=◌, ◌>>◌, answer, look, ok_or_fail, on_disk,
}
use pacto_bot_api.Reset.Moves.{Moment}
use pacto_bot_api.Reset.Classify.{Libraries, classify_and_prepare}
use pacto_bot_api.ClientManager.Reconcile.{GroupInfo, reconcile_mls_groups}

-- The engine of the crate `mdk`: opening a store, which may fail and may write its files, and
-- listing the groups in it.
pub record Engine : Type 0 where
  pub open_store : String → Dict String File → Option (Dict String File)
  pub list_groups : Dict String File → Result (List GroupInfo)

abbrev pub reconciliation_failed : String
reconciliation_failed = "MLS engine unavailable: group reconciliation failed"

-- The tables as the reconciliation leaves them, whether it fails or not.
abbrev pub settle : Tables × Result (Unit {0}) → Io (Unit {0})
settle (t, ok _) w n = done tt (record w { db = t }) n
settle (t, err _) w n = stopped (engine reconciliation_failed) (record w { db = t })

module _ (libraries : Libraries) (mdk : Engine) (to_bech32 : String → Result String)
    (removable : ArchiveName → Bool) (at : Moment) (now : ℕ) (bot_id npub store_path : String)
    (archive_retention_days : ℕ) where
  unfoldable pub reconcile : Io (Unit {0})
  unfolding reconcile_mls_groups
  reconcile = do
    groups ← look (λ w. mdk.list_groups w.disk.live)
    t ← look (λ w. w.db)
    settle (reconcile_mls_groups to_bech32 now bot_id npub groups t)

  -- The answer says whether a KeyPackage was offered to the relays; its failure is only logged.
  unfoldable pub construct_mls_bot_state : Io Bool
  unfolding classify_and_prepare reconcile
  construct_mls_bot_state = do
    reset_occurred ←
        classify_and_prepare libraries removable at bot_id store_path archive_retention_days
    opened ← look (λ w. mdk.open_store store_path w.disk.live)
    live ← ok_or_fail opened "MLS engine unavailable: engine construction failed"
    (λ w n. done tt (on_disk (λ d. record d { live = live }) w) n)
    reconcile
    answer reset_occurred

-- ===== src/Limits/Dedup.antt =====
-- `DedupCache` of src/dispatch.rs.
use pacto_bot_api.Prelude.{
  ℕ, ◌-◌, String, Bool, true, false, none, some, [], ltb, leb, if◌then◌else◌, length, string_eq,
}
use pacto_bot_api.Prelude.Dict.{Dict, get, insert, retain}
use pacto_bot_api.Limits.Eviction.{evict}

pub record DedupCache : Type 0 where
  pub seen : Dict String ℕ
  pub max_size : ℕ

-- `DedupCache::new`
abbrev pub new_cache : ℕ → DedupCache
new_cache max_size = record { seen = []; max_size = max_size }

-- `MLS_DEDUP_MAX_SIZE`, `MLS_DEDUP_CLEANUP_THRESHOLD`
abbrev pub mls_dedup_max_size : ℕ
mls_dedup_max_size = 1000

abbrev pub cleanup_threshold : ℕ
cleanup_threshold = 1000

abbrev pub within : ℕ → ℕ → String → ℕ → Bool
within now window _ last_seen = ltb (now - last_seen) window

-- The time stamp of an entry is the entry.
abbrev pub seen_at : ℕ → ℕ
seen_at t = t

-- `DedupCache::cleanup`
unfoldable pub cleanup : ℕ → ℕ → DedupCache → DedupCache
cleanup now window c = record c {
  seen = evict seen_at c.max_size (retain (within now window) c.seen);
}

-- The `if` at the start of `is_duplicate`.
unfoldable pub maybe_cleanup : ℕ → ℕ → DedupCache → DedupCache
unfolding cleanup
maybe_cleanup now window c =
    if leb cleanup_threshold (length c.seen) then cleanup now window c else c

-- The `match` of `is_duplicate`.
unfoldable pub look_up : String → ℕ → ℕ → DedupCache → DedupCache × Bool
look_up event_id now window c =
    let fresh : DedupCache × Bool = (record c { seen = insert event_id now c.seen }, false) in
    elim (get event_id c.seen) [
      | none ↦ fresh
      | some last_seen ↦ if within now window event_id last_seen then (c, true) else fresh
    ]

-- `DedupCache::is_duplicate`; `now` is what `Instant::now` reads.
unfoldable pub is_duplicate : String → ℕ → ℕ → DedupCache → DedupCache × Bool
unfolding maybe_cleanup look_up
is_duplicate event_id now window c = look_up event_id now window (maybe_cleanup now window c)

-- ===== src/Limits/Duplicates.antt =====
-- What the deduplication cache of src/dispatch.rs answers and how large it gets.
use pacto_bot_api.Prelude.{
  ℕ, ◌+◌, ◌-◌, ◌≤◌, ◌<◌, String, true, false, List, [], ◌∷◌, ◌≡◌, ◌≢◌, none, some, arith, length,
  string_eq, eq_iff, inl, inr, Option-cases,
}
use pacto_bot_api.Prelude.Dict.{
  Distinct, get, get-insert, get-retain, retain-Distinct, insert-Distinct, length-insert-le,
  length-retain, retain,
}
use pacto_bot_api.Limits.{
  DedupCache, new_cache, cleanup, maybe_cleanup, look_up, is_duplicate, within, seen_at,
  cleanup_threshold, mls_dedup_max_size,
}
use pacto_bot_api.Limits.Eviction.{evict}
use pacto_bot_api.Limits.Eviction.Kept.{length-evict, evict-Distinct, evict_fits, get-evict}

-- Distinct keys, and at most one entry over the threshold.
pub record IsBounded (c : DedupCache) : Type 0 where
  pub distinct : Distinct c.seen
  pub limit : c.max_size ≤ cleanup_threshold
  pub size : length c.seen ≤ cleanup_threshold + 1

maybe_cleanup-IsBounded :
    (now window : ℕ) (c : DedupCache)
    → IsBounded c
    → Distinct (maybe_cleanup now window c).seen
      × (length (maybe_cleanup now window c).seen ≤ cleanup_threshold)
      × ((maybe_cleanup now window c).max_size ≡ c.max_size)
unfolding maybe_cleanup cleanup
maybe_cleanup-IsBounded now window c b =
    let fresh = retain (within now window) c.seen in
    let fresh_distinct = retain-Distinct (within now window) c.seen b.distinct in
    ground (
      arith,
      evict-Distinct seen_at c.max_size fresh fresh_distinct,
      length-evict seen_at c.max_size fresh fresh_distinct,
    )

look_up-IsBounded :
    (event_id : String) (now window : ℕ) (c : DedupCache)
    → Distinct c.seen
    → c.max_size ≤ cleanup_threshold
    → length c.seen ≤ cleanup_threshold
    → IsBounded (look_up event_id now window c).0
unfolding look_up
look_up-IsBounded event_id now window c d l s =
    ground (arith, insert-Distinct event_id now c.seen d, length-insert-le event_id now c.seen)

pub is_duplicate-IsBounded :
    (event_id : String) (now window : ℕ) (c : DedupCache)
    → IsBounded c
    → IsBounded (is_duplicate event_id now window c).0
unfolding is_duplicate
is_duplicate-IsBounded event_id now window c b =
    let (d, s, m) = maybe_cleanup-IsBounded now window c b in
    look_up-IsBounded event_id now window (maybe_cleanup now window c) d (omega (arith, b.limit)) s

-- The calls `(event_id, now, window)` one after the other.
unfoldable pub run : DedupCache → List (String × ℕ × ℕ) → DedupCache
run c [] = c
run c ((event_id, now, window) ∷ rest) = run (is_duplicate event_id now window c).0 rest

run-IsBounded :
    (c : DedupCache) (calls : List (String × ℕ × ℕ)) → IsBounded c → IsBounded (run c calls)
unfolding run
run-IsBounded c [] b = b
run-IsBounded c ((event_id, now, window) ∷ rest) b =
    run-IsBounded (is_duplicate event_id now window c).0 rest
      (is_duplicate-IsBounded event_id now window c b)

-- Whatever it was asked, the cache of the daemon has distinct keys and at most 1001 entries, one
-- more than the size it is made with.
pub run-new_cache-IsBounded :
    (calls : List (String × ℕ × ℕ)) → IsBounded (run (new_cache mls_dedup_max_size) calls)
run-new_cache-IsBounded calls =
    run-IsBounded (new_cache mls_dedup_max_size) calls
      (record { distinct = tt; limit = omega arith; size = omega arith })

-- What is still there after the cleanup was there before.
get-maybe_cleanup :
    (event_id : String) (now window : ℕ) (c : DedupCache) (t : ℕ)
    → Distinct c.seen
    → get event_id (maybe_cleanup now window c).seen ≡ some t
    → get event_id c.seen ≡ some t
unfolding maybe_cleanup cleanup
get-maybe_cleanup event_id now window c t d h =
    let fresh = retain (within now window) c.seen in
    ground (
      arith,
      get-evict seen_at c.max_size fresh event_id t,
      get-retain (within now window) event_id c.seen d,
    )

-- In a cache that is not over its size the cleanup keeps every entry within the window.
maybe_cleanup_keeps :
    (event_id : String) (now window : ℕ) (c : DedupCache) (t : ℕ)
    → Distinct c.seen
    → length c.seen ≤ c.max_size
    → get event_id c.seen ≡ some t
    → now - t < window
    → get event_id (maybe_cleanup now window c).seen ≡ some t
unfolding maybe_cleanup cleanup
maybe_cleanup_keeps event_id now window c t d fits h near =
    let fresh = retain (within now window) c.seen in
    ground (
      arith,
      evict_fits seen_at c.max_size fresh,
      length-retain (within now window) c.seen,
      get-retain (within now window) event_id c.seen d,
    )

-- An event that is called a duplicate was recorded less than the window ago, and the call leaves
-- its time as it was: a repeated event does not extend its window.
pub duplicate_sound :
    (event_id : String) (now window : ℕ) (c : DedupCache)
    → Distinct c.seen
    → (is_duplicate event_id now window c).1 ≡ true
    → (t : ℕ) × (get event_id c.seen ≡ some t)
      × (now - t < window)
      × (get event_id (is_duplicate event_id now window c).0.seen ≡ some t)
unfolding is_duplicate look_up
duplicate_sound event_id now window c d h =
    elim (Option-cases (get event_id (maybe_cleanup now window c).seen)) [
      | inl e ↦ absurd (ground arith)
      | inr (t, e) ↦ (t, get-maybe_cleanup event_id now window c t d e, ground arith, ground arith)
    ]

-- An event recorded less than the window ago is called a duplicate, if the cache is not over its
-- size.
pub duplicate_complete :
    (event_id : String) (now window : ℕ) (c : DedupCache) (t : ℕ)
    → Distinct c.seen
    → length c.seen ≤ c.max_size
    → get event_id c.seen ≡ some t
    → now - t < window
    → (is_duplicate event_id now window c).1 ≡ true
unfolding is_duplicate look_up
duplicate_complete event_id now window c t d fits h near =
    ground (arith, maybe_cleanup_keeps event_id now window c t d fits h near)

-- An event that is not called a duplicate is recorded with the time of the call.
pub fresh_is_recorded :
    (event_id : String) (now window : ℕ) (c : DedupCache)
    → (is_duplicate event_id now window c).1 ≡ false
    → get event_id (is_duplicate event_id now window c).0.seen ≡ some now
unfolding is_duplicate look_up
fresh_is_recorded event_id now window c h = ground (
  arith,
  get-insert event_id event_id now (maybe_cleanup now window c).seen,
  eq_iff event_id event_id,
)

-- A call for one event, in a cache at the threshold, forgets every other event that is outside the
-- call's own window, however long that event's window is.
pub cleanup_forgets_others :
    (event_id other : String) (now window : ℕ) (c : DedupCache) (t : ℕ)
    → Distinct c.seen
    → cleanup_threshold ≤ length c.seen
    → other ≢ event_id
    → get other c.seen ≡ some t
    → window ≤ now - t
    → get other (is_duplicate event_id now window c).0.seen ≡ none
unfolding is_duplicate look_up maybe_cleanup cleanup
cleanup_forgets_others event_id other now window c t d full ne h far =
    let fresh = retain (within now window) c.seen in
    let cleaned = evict seen_at c.max_size fresh in
    elim (Option-cases (get other cleaned)) [
      | inl e ↦ ground (arith, get-insert event_id other now cleaned, eq_iff event_id other)
      | inr (u, e) ↦ absurd (
          ground (
            arith,
            get-evict seen_at c.max_size fresh other u e,
            get-retain (within now window) other c.seen d,
          ))
    ]

-- ===== src/Limits/Tests.antt =====
-- Tests of the rate limiter and the deduplication cache of src/dispatch.rs, and the theorems about
-- them at concrete states.
use pacto_bot_api.Prelude.{
  ℕ, ◌+◌, ◌*◌, ◌-◌, ◌≤◌, ◌<◌, String, true, false, some, [], ◌∷◌, ◌≡◌, refl, arith, length,
  string_eq,
}
use pacto_bot_api.Prelude.Dict.{Dict, get, remove, retain}
use pacto_bot_api.Limits.{
  Bucket, BucketMap, RateLimiter, DedupCache, check_bucket, new_bucket, new_limiter, new_cache,
  one_token, second, maybe_sweep, take_token, check_group, set_group_limits, is_duplicate,
  mls_dedup_max_size,
}
use pacto_bot_api.Limits.Eviction.{evict}
use pacto_bot_api.Limits.Eviction.Kept.{length-evict, evict_keeps_newest}
use pacto_bot_api.Limits.Admission.{
  run_checks, admission_bound, admits_after_wait, small_burst_admits_none,
}
use pacto_bot_api.Limits.Sweeping.{sweep_invisible}
use pacto_bot_api.Limits.Sizes.{
  Call, checks, group_checks, removes_handler, AllBounded, run-new_limiter-AllBounded,
}
use pacto_bot_api.Limits.Sizes
use pacto_bot_api.Limits.Overrides.{group_key, set_group_limits_leaves_bucket}
use pacto_bot_api.Limits.Duplicates.{
  IsBounded, run-new_cache-IsBounded, duplicate_sound, duplicate_complete, fresh_is_recorded,
}
use pacto_bot_api.Limits.Duplicates

-- A bucket of one token that refills in a minute, half a minute after its last check.
abbrev half_full : Bucket
half_full = record { tokens = 0; last_replenished = 0; rate = 1; burst = one_token }

abbrev minute : ℕ
minute = 60 * second

admission_bound_example :
    (run_checks (run_checks half_full (minute ∷ [])).0 (minute ∷ (2 * minute) ∷ [])).1 * one_token
    ≤ one_token + (2 * minute - minute) * 1
unfolding run_checks check_bucket
admission_bound_example =
    admission_bound half_full (minute ∷ []) (minute ∷ (2 * minute) ∷ []) (omega arith) (omega arith)

two_admitted : (run_checks half_full (minute ∷ minute ∷ (2 * minute) ∷ [])).1 ≡ 2
unfolding run_checks
two_admitted = refl

admits_after_wait_example : (check_bucket minute half_full).1 ≡ true
admits_after_wait_example = admits_after_wait minute half_full (omega arith) (omega arith)

-- `group_message_burst = 0.5`
abbrev half_burst : Bucket
half_burst = new_bucket 0 1 30000000000

small_burst_admits_none_test : (run_checks half_burst (minute ∷ (60 * minute) ∷ [])).1 ≡ 0
small_burst_admits_none_test =
    small_burst_admits_none half_burst (minute ∷ (60 * minute) ∷ []) (omega arith)

abbrev old_map : BucketMap
old_map = record { buckets = ("echo", half_full) ∷ []; last_sweep = 0 }

sweep_invisible_example :
    let swept = maybe_sweep old_map (400 * second) 10 (300 * second) in
    ((take_token "echo" (400 * second) 1 one_token (400 * second) swept).1
      ≡ (take_token "echo" (400 * second) 1 one_token (400 * second) old_map).1)
    × (get "echo" (take_token "echo" (400 * second) 1 one_token (400 * second) swept).0.buckets
        ≡ get "echo"
            (take_token "echo" (400 * second) 1 one_token (400 * second) old_map).0.buckets)
unfolding get
sweep_invisible_example =
    sweep_invisible "echo" (400 * second) 1 one_token (400 * second) 10 (300 * second) old_map
      (omega arith) (omega arith) (refl, tt) uniform (omega arith)
  where
    uniform :
        (b : Bucket) → get "echo" old_map.buckets ≡ some b → (b.rate ≡ 1) × (b.burst ≡ one_token)
    uniform b h = ground arith

stale_bucket_goes : (maybe_sweep old_map (400 * second) 10 (300 * second)).buckets ≡ []
unfolding maybe_sweep retain evict
stale_bucket_goes = refl

run-new_limiter-AllBounded_example : AllBounded (
    Sizes.run
      (new_limiter 0 600 (20 * one_token) 1200 (40 * one_token))
      (checks 1 "h1" "echo" 1 ∷ group_checks 2 "echo" "squad" 2 ∷ removes_handler "h1" ∷ []))
run-new_limiter-AllBounded_example =
    run-new_limiter-AllBounded 0 600 (20 * one_token) 1200 (40 * one_token)
      (checks 1 "h1" "echo" 1 ∷ group_checks 2 "echo" "squad" 2 ∷ removes_handler "h1" ∷ [])

-- A limiter that has seen one message of the Squad.
abbrev used : RateLimiter
used = record (new_limiter 0 600 (20 * one_token) 1200 (40 * one_token)) {
  groups = record {
    buckets =
        ("echo:squad", record { tokens = 0; last_replenished = 5; rate = 1; burst = one_token })
        ∷ [];
    last_sweep = 0;
  };
}

used_has_bucket :
    get
      (group_key "echo" "squad")
      (maybe_sweep used.groups 10 used.max_buckets used.stale_after).buckets
    ≡ some (record { tokens = 0; last_replenished = 5; rate = 1; burst = one_token })
unfolding maybe_sweep get new_limiter
used_has_bucket = refl

set_group_limits_leaves_bucket_test :
    let after = check_group 10 "echo" "squad" 10 (set_group_limits 60 (9 * one_token) used) in
    (after.1 ≡ (check_group 10 "echo" "squad" 10 used).1)
    × (get (group_key "echo" "squad") after.0.groups.buckets
        ≡ some
            (check_bucket 10
              (record { tokens = 0; last_replenished = 5; rate = 1; burst = one_token })).0)
set_group_limits_leaves_bucket_test =
    set_group_limits_leaves_bucket 60 (9 * one_token) 10 10 "echo" "squad" used
      (record { tokens = 0; last_replenished = 5; rate = 1; burst = one_token }) used_has_bucket

abbrev three : Dict String ℕ
three = ("a", 30) ∷ ("b", 10) ∷ ("c", 20) ∷ []

abbrev by_time : ℕ → ℕ
by_time t = t

length-evict_test : length (evict by_time 2 three) ≡ 2
unfolding get
length-evict_test = length-evict by_time 2 three (refl, (refl, (refl, tt)))

evict_keeps_newest_test : 10 ≤ 20
unfolding get evict remove
evict_keeps_newest_test =
    evict_keeps_newest by_time 2 three "b" "c" 10 20 (refl, (refl, (refl, tt))) refl refl refl

abbrev cache : DedupCache
cache = record { seen = ("echo:e1", 100) ∷ []; max_size = 1000 }

run-new_cache-IsBounded_example :
    IsBounded (
      Duplicates.run
        (new_cache mls_dedup_max_size)
        (("echo:e1", 5, 900) ∷ ("echo:e1", 6, 900) ∷ []))
run-new_cache-IsBounded_example =
    run-new_cache-IsBounded (("echo:e1", 5, 900) ∷ ("echo:e1", 6, 900) ∷ [])

e1_again : (is_duplicate "echo:e1" 150 900 cache).1 ≡ true
unfolding is_duplicate get
e1_again = refl

duplicate_sound_example :
    (t : ℕ) × (get "echo:e1" cache.seen ≡ some t)
    × (150 - t < 900)
    × (get "echo:e1" (is_duplicate "echo:e1" 150 900 cache).0.seen ≡ some t)
unfolding get
duplicate_sound_example = duplicate_sound "echo:e1" 150 900 cache (refl, tt) e1_again

duplicate_complete_test : (is_duplicate "echo:e1" 150 900 cache).1 ≡ true
unfolding get
duplicate_complete_test =
    duplicate_complete "echo:e1" 150 900 cache 100 (refl, tt) (omega arith) refl (omega arith)

e1_expired : (is_duplicate "echo:e1" 1000 900 cache).1 ≡ false
unfolding is_duplicate get
e1_expired = refl

fresh_is_recorded_test : get "echo:e1" (is_duplicate "echo:e1" 1000 900 cache).0.seen ≡ some 1000
fresh_is_recorded_test = fresh_is_recorded "echo:e1" 1000 900 cache e1_expired

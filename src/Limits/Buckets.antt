-- ===== src/Limits/Buckets.antt =====
-- `Bucket` and `BucketMap` of src/dispatch.rs. The source counts tokens and rates in `f64`; here
-- they are exact: a token is 60 * 10^9 units, so a rate of one token a second is 60 units a
-- nanosecond, and the default of one token a minute is one unit a nanosecond. The rounding of
-- `f64` is not modelled.
use pacto_bot_api.Prelude.{
  ℕ, ◌+◌, ◌-◌, ◌*◌, min, String, Bool, true, false, ◌||◌, Option, none, some, [], ltb, leb,
  if◌then◌else◌, length, string_eq,
}
use pacto_bot_api.Prelude.Dict.{Dict, get, insert, retain}
use pacto_bot_api.Limits.Eviction.{evict}

abbrev pub one_token : ℕ
one_token = 60000000000

abbrev pub second : ℕ
second = 1000000000

pub record Bucket : Type 0 where
  pub tokens : ℕ
  pub last_replenished : ℕ
  pub rate : ℕ
  pub burst : ℕ

-- `Bucket::new`; `clock` is what `Instant::now` reads there.
abbrev pub new_bucket : ℕ → ℕ → ℕ → Bucket
new_bucket clock rate burst = record {
  tokens = burst;
  last_replenished = clock;
  rate = rate;
  burst = burst;
}

-- `Bucket::check`; the difference of two times stops at 0 in the source too.
unfoldable pub check_bucket : ℕ → Bucket → Bucket × Bool
check_bucket now b =
    let tokens = min (b.tokens + (now - b.last_replenished) * b.rate) b.burst in
    if leb one_token tokens
    then (record b { tokens = tokens - one_token; last_replenished = now }, true)
    else (record b { tokens = tokens; last_replenished = now }, false)

pub record BucketMap : Type 0 where
  pub buckets : Dict String Bucket
  pub last_sweep : ℕ

-- `BucketMap::new`
abbrev pub new_map : ℕ → BucketMap
new_map clock = record { buckets = []; last_sweep = clock }

-- `BucketMap::needs_sweep`
unfoldable pub needs_sweep : BucketMap → ℕ → ℕ → ℕ → Bool
needs_sweep m now max_buckets stale_after =
    ltb max_buckets (length m.buckets) || leb stale_after (now - m.last_sweep)

-- The closure of `BucketMap::sweep`.
abbrev pub is_fresh : ℕ → ℕ → String → Bucket → Bool
is_fresh now stale_after _ b = leb (now - b.last_replenished) stale_after

abbrev pub replenished : Bucket → ℕ
replenished b = b.last_replenished

-- `BucketMap::sweep`
unfoldable pub sweep : BucketMap → ℕ → ℕ → ℕ → BucketMap
sweep m now max_buckets stale_after = record {
  buckets = evict replenished max_buckets (retain (is_fresh now stale_after) m.buckets);
  last_sweep = now;
}

-- `if needs_sweep { sweep }`, which `check` and `check_group` begin with.
unfoldable pub maybe_sweep : BucketMap → ℕ → ℕ → ℕ → BucketMap
unfolding needs_sweep sweep
maybe_sweep m now max_buckets stale_after =
    if needs_sweep m now max_buckets stale_after then sweep m now max_buckets stale_after else m

-- `map.entry(key).or_insert_with(|| Bucket::new(rate, burst))`
abbrev pub or_new : ℕ → ℕ → ℕ → Option Bucket → Bucket
or_new clock rate burst none = new_bucket clock rate burst
or_new clock rate burst (some b) = b

-- The entry, and its `check`.
unfoldable pub take_token : String → ℕ → ℕ → ℕ → ℕ → BucketMap → BucketMap × Bool
take_token key clock rate burst now m =
    let (b, allowed) = check_bucket now (or_new clock rate burst (get key m.buckets)) in
    (record m { buckets = insert key b m.buckets }, allowed)

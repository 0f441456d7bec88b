-- ===== src/Limits/Sizes.antt =====
-- The rate limiter of src/dispatch.rs stays within its size, and what its calls leave alone.
use pacto_bot_api.Prelude.{ℕ, ◌+◌, ◌≤◌, String, List, [], ◌∷◌, arith, length, string_eq}
use pacto_bot_api.Prelude.Dict.{
  Distinct, get, retain-Distinct, insert-Distinct, length-insert-le, remove-Distinct,
  length-remove-le, retain,
}
use pacto_bot_api.Limits.{
  BucketMap, RateLimiter, check_bucket, or_new, take_token, sweep, maybe_sweep, needs_sweep,
  is_fresh, replenished, check, check_group, remove_handler, new_limiter,
}
use pacto_bot_api.Limits.Eviction.Kept.{length-evict, evict-Distinct}

-- One entry more than the limit, until the next call sweeps.
pub record IsBounded (max_buckets : ℕ) (m : BucketMap) : Type 0 where
  pub distinct : Distinct m.buckets
  pub size : length m.buckets ≤ max_buckets + 1

maybe_sweep-IsBounded :
    (m : BucketMap) (now max_buckets stale_after : ℕ)
    → Distinct m.buckets
    → Distinct (maybe_sweep m now max_buckets stale_after).buckets
      × (length (maybe_sweep m now max_buckets stale_after).buckets ≤ max_buckets)
unfolding maybe_sweep sweep needs_sweep
maybe_sweep-IsBounded m now max_buckets stale_after d =
    let fresh = retain (is_fresh now stale_after) m.buckets in
    let fresh_distinct = retain-Distinct (is_fresh now stale_after) m.buckets d in
    ground (
      arith,
      evict-Distinct replenished max_buckets fresh fresh_distinct,
      length-evict replenished max_buckets fresh fresh_distinct,
    )

take_token-IsBounded :
    (key : String) (clock rate burst now max_buckets : ℕ) (m : BucketMap)
    → Distinct m.buckets
    → length m.buckets ≤ max_buckets
    → IsBounded max_buckets (take_token key clock rate burst now m).0
unfolding take_token
take_token-IsBounded key clock rate burst now max_buckets m d fits =
    let b = (check_bucket now (or_new clock rate burst (get key m.buckets))).0 in
    record {
      distinct = insert-Distinct key b m.buckets d;
      size = omega (arith, length-insert-le key b m.buckets);
    }

pub record AllBounded (l : RateLimiter) : Type 0 where
  pub handlers : IsBounded l.max_buckets l.handlers
  pub bots : IsBounded l.max_buckets l.bots
  pub groups : IsBounded l.max_buckets l.groups

pub data Call : Type 0 where
  checks : ℕ → String → String → ℕ → Call
  group_checks : ℕ → String → String → ℕ → Call
  removes_handler : String → Call

unfoldable pub step : RateLimiter → Call → RateLimiter
step l (checks clock handler_id bot_id now) = (check clock handler_id bot_id now l).0
step l (group_checks clock bot_id group_id now) = (check_group clock bot_id group_id now l).0
step l (removes_handler handler_id) = remove_handler handler_id l

swept_take-IsBounded :
    (key : String) (clock rate burst now max_buckets stale_after : ℕ) (m : BucketMap)
    → IsBounded max_buckets m
    → IsBounded max_buckets
        (take_token key clock rate burst now (maybe_sweep m now max_buckets stale_after)).0
swept_take-IsBounded key clock rate burst now max_buckets stale_after m b =
    let (d, fits) = maybe_sweep-IsBounded m now max_buckets stale_after b.distinct in
    take_token-IsBounded key clock rate burst now max_buckets
      (maybe_sweep m now max_buckets stale_after) d fits

step-AllBounded : (l : RateLimiter) (c : Call) → AllBounded l → AllBounded (step l c)
unfolding step check check_group remove_handler
step-AllBounded l (checks clock handler_id bot_id now) b = ground (
  arith,
  swept_take-IsBounded bot_id clock l.bot_rate l.bot_burst now l.max_buckets l.stale_after l.bots
      b.bots,
  swept_take-IsBounded handler_id clock l.handler_rate l.handler_burst now l.max_buckets
      l.stale_after l.handlers b.handlers,
)
step-AllBounded l (group_checks clock bot_id group_id now) b = record {
  handlers = b.handlers;
  bots = b.bots;
  groups =
      swept_take-IsBounded _ clock l.group_rate l.group_burst now l.max_buckets l.stale_after
        l.groups b.groups;
}
step-AllBounded l (removes_handler handler_id) b = record {
  handlers = record {
    distinct = remove-Distinct handler_id l.handlers.buckets b.handlers.distinct;
    size = omega (arith, b.handlers.size, length-remove-le handler_id l.handlers.buckets);
  };
  bots = b.bots;
  groups = b.groups;
}

unfoldable pub run : RateLimiter → List Call → RateLimiter
unfolding step
run l [] = l
run l (c ∷ cs) = run (step l c) cs

run-AllBounded : (l : RateLimiter) (cs : List Call) → AllBounded l → AllBounded (run l cs)
unfolding run
run-AllBounded l [] b = b
run-AllBounded l (c ∷ cs) b = run-AllBounded (step l c) cs (step-AllBounded l c b)

-- Whatever calls a new limiter has seen, each of its maps has distinct keys and at most one bucket
-- more than the limit, until the next call sweeps.
pub run-new_limiter-AllBounded :
    (clock handler_rate handler_burst bot_rate bot_burst : ℕ) (cs : List Call)
    → AllBounded (run (new_limiter clock handler_rate handler_burst bot_rate bot_burst) cs)
unfolding new_limiter
run-new_limiter-AllBounded clock handler_rate handler_burst bot_rate bot_burst cs =
    run-AllBounded _ cs (record {
      handlers = record { distinct = tt; size = omega arith };
      bots = record { distinct = tt; size = omega arith };
      groups = record { distinct = tt; size = omega arith };
    })

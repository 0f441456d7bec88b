-- ===== src/Limits/Limiter.antt =====
-- `RateLimiter` of src/dispatch.rs. Each of its three maps is locked for as long as one call works
-- on it. `clock` is what `Instant::now` reads inside a call, `now` what the caller read before.
use pacto_bot_api.Prelude.{ℕ, ◌*◌, String, Bool, false, if◌then◌else◌, format, [], ◌∷◌, string_eq}
use pacto_bot_api.Prelude.Dict.{remove}
use pacto_bot_api.Limits.Buckets.{BucketMap, one_token, second, new_map, maybe_sweep, take_token}

pub record RateLimiter : Type 0 where
  pub handlers : BucketMap
  pub bots : BucketMap
  pub groups : BucketMap
  pub handler_rate : ℕ
  pub handler_burst : ℕ
  pub bot_rate : ℕ
  pub bot_burst : ℕ
  pub group_rate : ℕ
  pub group_burst : ℕ
  pub stale_after : ℕ
  pub max_buckets : ℕ

-- `RateLimiter::new`, with the constants `GROUP_RATE`, `GROUP_RATE_BURST`, `BUCKET_STALE_TIMEOUT`
-- and `MAX_BUCKETS`.
unfoldable pub new_limiter : ℕ → ℕ → ℕ → ℕ → ℕ → RateLimiter
new_limiter clock handler_rate handler_burst bot_rate bot_burst = record {
  handlers = new_map clock;
  bots = new_map clock;
  groups = new_map clock;
  handler_rate = handler_rate;
  handler_burst = handler_burst;
  bot_rate = bot_rate;
  bot_burst = bot_burst;
  group_rate = 1;
  group_burst = one_token;
  stale_after = 300 * second;
  max_buckets = 10000;
}

-- `RateLimiter::default`: 10 tokens a second and 20 at once for a handler, 20 and 40 for a bot.
unfoldable pub default_limiter : ℕ → RateLimiter
unfolding new_limiter
default_limiter clock = new_limiter clock 600 (20 * one_token) 1200 (40 * one_token)

-- `RateLimiter::set_group_limits`
unfoldable pub set_group_limits : ℕ → ℕ → RateLimiter → RateLimiter
set_group_limits rate burst l = record l { group_rate = rate; group_burst = burst }

-- `RateLimiter::remove_handler`
unfoldable pub remove_handler : String → RateLimiter → RateLimiter
remove_handler handler_id l = record l {
  handlers = record l.handlers { buckets = remove handler_id l.handlers.buckets };
}

-- `RateLimiter::check`: the bot's bucket first, and the handler's only if that allows.
unfoldable pub check : ℕ → String → String → ℕ → RateLimiter → RateLimiter × Bool
check clock handler_id bot_id now l =
    let swept_bots = maybe_sweep l.bots now l.max_buckets l.stale_after in
    let (bots, bot_allowed) = take_token bot_id clock l.bot_rate l.bot_burst now swept_bots in
    let swept_handlers = maybe_sweep l.handlers now l.max_buckets l.stale_after in
    let (handlers, allowed) =
      take_token handler_id clock l.handler_rate l.handler_burst now swept_handlers in
    if bot_allowed
    then (record l { bots = bots; handlers = handlers }, allowed)
    else (record l { bots = bots }, false)

-- `RateLimiter::check_group`
unfoldable pub check_group : ℕ → String → String → ℕ → RateLimiter → RateLimiter × Bool
check_group clock bot_id group_id now l =
    let swept = maybe_sweep l.groups now l.max_buckets l.stale_after in
    let (groups, allowed) =
      take_token (format (bot_id ∷ ":" ∷ group_id ∷ [])) clock l.group_rate l.group_burst now
        swept in
    (record l { groups = groups }, allowed)

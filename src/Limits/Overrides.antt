-- ===== src/Limits/Overrides.antt =====
-- `RateLimiter::set_group_limits` of src/dispatch.rs and the buckets that are there already.
use pacto_bot_api.Prelude.{ℕ, String, [], ◌∷◌, ◌≡◌, sym, ap, ◌∙◌, some, string_eq, format}
use pacto_bot_api.Prelude.Dict.{get}
use pacto_bot_api.Limits.{
  Bucket, RateLimiter, check_bucket, or_new, maybe_sweep, check_group, set_group_limits,
}
use pacto_bot_api.Limits.Sweeping.{take_token_lem}

-- The key of a Squad's bucket.
abbrev pub group_key : String → String → String
group_key bot_id group_id = format (bot_id ∷ ":" ∷ group_id ∷ [])

-- A bucket that is there keeps the rate and the burst it was made with: whatever limits are set,
-- the next check of that Squad has the answer, and leaves the bucket, that it would have had.
pub set_group_limits_leaves_bucket :
    (rate burst clock now : ℕ) (bot_id group_id : String) (l : RateLimiter) (b : Bucket)
    → get (group_key bot_id group_id) (maybe_sweep l.groups now l.max_buckets l.stale_after).buckets
      ≡ some b
    → let after = check_group clock bot_id group_id now (set_group_limits rate burst l) in
      (after.1 ≡ (check_group clock bot_id group_id now l).1)
      × (get (group_key bot_id group_id) after.0.groups.buckets ≡ some (check_bucket now b).0)
unfolding check_group set_group_limits
set_group_limits_leaves_bucket rate burst clock now bot_id group_id l b there =
    let key = group_key bot_id group_id in
    let swept = maybe_sweep l.groups now l.max_buckets l.stale_after in
    let new_limits = take_token_lem key clock rate burst now swept in
    let old_limits = take_token_lem key clock l.group_rate l.group_burst now swept in
    let as_new = ap (λ o. check_bucket now (or_new clock rate burst o)) there in
    let as_old = ap (λ o. check_bucket now (or_new clock l.group_rate l.group_burst o)) there in
    (
      new_limits.0 ∙ ap (λ c. c.1) as_new ∙ sym (old_limits.0 ∙ ap (λ c. c.1) as_old),
      new_limits.1 ∙ ap (λ c. some c.0) as_new,
    )

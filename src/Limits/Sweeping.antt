-- ===== src/Limits/Sweeping.antt =====
-- What the sweep of stale buckets in src/dispatch.rs does to the limiter's answers and its size.
use pacto_bot_api.Prelude.{
  ℕ, ◌-◌, ◌*◌, ◌≤◌, String, Option, none, some, ◌≡◌, refl, ap, ap₂, ◌∙◌, sym, arith, leb, length,
  string_eq, eq_iff, Bool-cases, inl, inr,
}
use pacto_bot_api.Prelude.Dict.{Distinct, get, retain, kept, get-insert, get-retain, length-retain}
use pacto_bot_api.Limits.{
  Bucket, BucketMap, check_bucket, new_bucket, or_new, take_token, sweep, maybe_sweep, needs_sweep,
  is_fresh, replenished,
}
use pacto_bot_api.Limits.Eviction.Kept.{evict_fits}

-- A bucket that has had the time to fill up answers as a new one does, and is the same after.
full_like_new :
    (clock now : ℕ) (b : Bucket)
    → now ≤ clock
    → b.burst ≤ (now - b.last_replenished) * b.rate
    → check_bucket now (new_bucket clock b.rate b.burst) ≡ check_bucket now b
unfolding check_bucket
full_like_new clock now b later full = ground arith

mul_mono : (a b r : ℕ) → a ≤ b → a * r ≤ b * r
mul_mono a b r h = grind arith

-- The entry that `check` works on, whether a stale one was dropped before or not.
same_check :
    (key : String) (clock rate burst now stale_after : ℕ) (o : Option Bucket)
    → now ≤ clock
    → burst ≤ stale_after * rate
    → ((b : Bucket) → o ≡ some b → (b.rate ≡ rate) × (b.burst ≡ burst))
    → check_bucket now (or_new clock rate burst (kept (is_fresh now stale_after) key o))
      ≡ check_bucket now (or_new clock rate burst o)
same_check key clock rate burst now stale_after none later fills uniform = refl
same_check key clock rate burst now stale_after (some b) later fills uniform =
    elim (Bool-cases (leb (now - b.last_replenished) stale_after)) [
      | inl fresh ↦ rw (fresh, kept) refl
      | inr stale ↦
          let (r, c) = uniform b refl in
          let long : stale_after * rate ≤ (now - b.last_replenished) * rate =
            mul_mono stale_after (now - b.last_replenished) rate (ground arith) in
          let full : b.burst ≤ (now - b.last_replenished) * b.rate = rw (c, r) (omega arith) in
          let like_new = full_like_new clock now b later full in
          rw (stale, kept)
            (ap₂ (λ x y. check_bucket now (new_bucket clock x y)) (sym r) (sym c) ∙ like_new)
    ]

-- The answer, and the bucket that is left, are those of the entry.
pub take_token_lem :
    (key : String) (clock rate burst now : ℕ) (m : BucketMap)
    → let c = check_bucket now (or_new clock rate burst (get key m.buckets)) in
      ((take_token key clock rate burst now m).1 ≡ c.1)
      × (get key (take_token key clock rate burst now m).0.buckets ≡ some c.0)
unfolding take_token
take_token_lem key clock rate burst now m =
    let b = (check_bucket now (or_new clock rate burst (get key m.buckets))).0 in
    (refl, ground (arith, eq_iff key key, get-insert key key b m.buckets))

module _ (key : String) (clock rate burst now max_buckets stale_after : ℕ) (m : BucketMap)
    (later : now ≤ clock) (fits : length m.buckets ≤ max_buckets) (d : Distinct m.buckets)
    (uniform : (b : Bucket) → get key m.buckets ≡ some b → (b.rate ≡ rate) × (b.burst ≡ burst))
    (fills : burst ≤ stale_after * rate) where
  get-sweep :
      get key (sweep m now max_buckets stale_after).buckets
      ≡ kept (is_fresh now stale_after) key (get key m.buckets)
  unfolding sweep
  get-sweep =
      let fresh = retain (is_fresh now stale_after) m.buckets in
      let small : length fresh ≤ max_buckets =
        omega (arith, length-retain (is_fresh now stale_after) m.buckets) in
      rw (evict_fits replenished max_buckets fresh small)
        (get-retain (is_fresh now stale_after) key m.buckets d)

  -- Dropping stale buckets is invisible to a check of the rate and the burst that the key's bucket, if
  -- it has one, was made with: while the map has distinct keys and no more buckets than its maximum,
  -- a bucket has the time to fill up before it is stale, and the check's time is not after the clock
  -- that a new bucket gets, the check has the same answer after a sweep as without it, and leaves the
  -- same bucket under its key.
  pub sweep_invisible :
      let swept = maybe_sweep m now max_buckets stale_after in
      ((take_token key clock rate burst now swept).1 ≡ (take_token key clock rate burst now m).1)
      × (get key (take_token key clock rate burst now swept).0.buckets
          ≡ get key (take_token key clock rate burst now m).0.buckets)
  unfolding maybe_sweep
  sweep_invisible = elim (Bool-cases (needs_sweep m now max_buckets stale_after)) [
    | inr no_need ↦ rw (no_need, maybe_sweep) (refl, refl)
    | inl need ↦
        let swept = sweep m now max_buckets stale_after in
        let with_sweep = take_token_lem key clock rate burst now swept in
        let without = take_token_lem key clock rate burst now m in
        let same =
          ap (λ o. check_bucket now (or_new clock rate burst o)) get-sweep
          ∙ same_check key clock rate burst now stale_after (get key m.buckets) later fills
              uniform in
        rw (need, maybe_sweep)
          (
            with_sweep.0 ∙ ap (λ c. c.1) same ∙ sym without.0,
            with_sweep.1 ∙ ap (λ c. some c.0) same ∙ sym without.1,
          )
  ]

-- ===== src/Limits/Eviction.antt =====
-- The loop that `BucketMap::sweep` and `DedupCache::cleanup` of src/dispatch.rs share: while the
-- map is over its size, the entry with the least time stamp is found and removed. The first of
-- several that are least goes, in the order in which the map is iterated.
pub mod Kept
use pacto_bot_api.Prelude.{
  ℕ, zero, suc, ◌+◌, ◌-◌, ◌≤◌, ◌<◌, String, Bool, true, false, Option, none, some, List, [], ◌∷◌,
  ◌≡◌, refl, ap, ◌≢◌, ◌⊎◌, inl, inr, length, ltb, leb, if◌then◌else◌, arith, string_eq, eq_iff,
  ◌==◌, Bool-cases, Option-cases, min,
}
use pacto_bot_api.Prelude.Dict.{
  Dict, Distinct, get, remove, get-remove, remove-Distinct, length-remove, length-remove-le,
}

module _ {V : Type 0} (stamp : V → ℕ) where
  -- The older of an entry and the oldest of those behind it; on a tie the first.
  older : String → V → Option (String × V) → Option (String × V)
  older k v none = some (k, v)
  older k v (some (j, w)) = if ltb (stamp w) (stamp v) then some (j, w) else some (k, v)

  -- `iter().min_by_key(…)`
  unfoldable pub oldest : Dict String V → Option (String × V)
  unfolding older
  oldest [] = none
  oldest ((k, v) ∷ m) = older k v (oldest m)

  -- The loop with fuel: one round removes at least one entry.
  unfoldable pub evict_rounds : ℕ → ℕ → Dict String V → Dict String V
  unfolding oldest
  evict_rounds zero max_size m = m
  evict_rounds (suc fuel) max_size m = elim (ltb max_size (length m)) [
    | false ↦ m
    | true ↦ elim (oldest m) [ none ↦ m | some (k, _) ↦ evict_rounds fuel max_size (remove k m) ]
  ]

  -- As many rounds as there are entries are enough: `length-evict` in Limits/Eviction/Kept.
  unfoldable pub evict : ℕ → Dict String V → Dict String V
  unfolding evict_rounds
  evict max_size m = evict_rounds (length m) max_size m

  pub oldest-ne-none : (k : String) (v : V) (m : Dict String V) → oldest ((k, v) ∷ m) ≢ none
  unfolding oldest
  oldest-ne-none k v m h = ground arith

  oldest-eq-none : (m : Dict String V) (i : String) → oldest m ≡ none → get i m ≡ none
  unfolding oldest get
  oldest-eq-none [] i h = refl
  oldest-eq-none ((k, v) ∷ m) i h = absurd (ground arith)

  -- The oldest entry is in the map.
  pub oldest-get :
      (m : Dict String V) (k : String) (v : V)
      → Distinct m
      → oldest m ≡ some (k, v)
      → get k m ≡ some v
  unfolding oldest get
  oldest-get [] k v d h = cc
  oldest-get ((j, w) ∷ m) k v d h = elim (Option-cases (oldest m)) [
    | inl e ↦ ground (arith, eq_iff j k)
    | inr ((i, u), e) ↦ ground (arith, oldest-get m i u d.1 e, eq_iff j k, eq_iff j i)
  ]

  -- No entry is older.
  pub oldest-le :
      (m : Dict String V) (k : String) (v : V) (i : String) (u : V)
      → oldest m ≡ some (k, v)
      → get i m ≡ some u
      → stamp v ≤ stamp u
  unfolding oldest get
  oldest-le [] k v i u h g = cc
  oldest-le ((j, w) ∷ m) k v i u h g = elim (Option-cases (oldest m)) [
    | inl e ↦ ground (arith, eq_iff j i, oldest-eq-none m i e)
    | inr ((n, x), e) ↦ ground (arith, eq_iff j i, oldest-le m n x i u e)
  ]

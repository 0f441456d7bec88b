-- ===== src/Limits/Eviction/Kept.antt =====
-- What the eviction loop leaves: as many entries as fit, and the newest ones.
use pacto_bot_api.Prelude.{
  ℕ, zero, suc, ◌+◌, ◌≤◌, ◌<◌, String, none, some, [], ◌∷◌, ◌≡◌, refl, ◌⊎◌, inl, inr, length, ltb,
  arith, string_eq, eq_iff, ◌==◌, Bool-cases, Option-cases, min, ltb→lt,
}
use pacto_bot_api.Prelude.Dict.{
  Dict, Distinct, get, remove, get-remove, remove-Distinct, length-remove,
}
use pacto_bot_api.Limits.Eviction.{
  oldest, evict_rounds, evict, oldest-ne-none, oldest-get, oldest-le,
}

module _ {V : Type 0} (stamp : V → ℕ) where
  -- One round: the map fits and stays, or its oldest entry goes.
  round :
      (fuel max_size : ℕ) (m : Dict String V)
      → ((length m ≤ max_size) × (evict_rounds stamp (suc fuel) max_size m ≡ m))
        ⊎ ((k : String) × (v : V) × (max_size < length m)
            × (oldest stamp m ≡ some (k, v))
            × (evict_rounds stamp (suc fuel) max_size m
                ≡ evict_rounds stamp fuel max_size (remove k m)))
  unfolding evict_rounds
  round fuel max_size [] = inl (omega arith, ground arith)
  round fuel max_size ((j, w) ∷ m) = elim (Bool-cases (ltb max_size (length ((j, w) ∷ m)))) [
    | inr fits ↦ inl (ground arith, rw (fits, evict_rounds) refl)
    | inl over ↦ elim (Option-cases (oldest stamp ((j, w) ∷ m))) [
      | inl e ↦ absurd (oldest-ne-none stamp j w m e)
      | inr ((k, v), e) ↦ inr (k, v, ltb→lt _ _ over, e, rw (over, e, evict_rounds) refl)
    ]
  ]

  evict_rounds-Distinct :
      (fuel max_size : ℕ) (m : Dict String V)
      → Distinct m
      → Distinct (evict_rounds stamp fuel max_size m)
  unfolding evict_rounds
  evict_rounds-Distinct zero max_size m d = d
  evict_rounds-Distinct (suc fuel) max_size m d = elim (round fuel max_size m) [
    | inl (_, e) ↦ rw e d
    | inr (k, v, _, _, e) ↦
        rw e (evict_rounds-Distinct fuel max_size (remove k m) (remove-Distinct k m d))
  ]

  length-evict_rounds :
      (fuel max_size : ℕ) (m : Dict String V)
      → Distinct m
      → length m ≤ fuel + max_size
      → length (evict_rounds stamp fuel max_size m) ≡ min (length m) max_size
  unfolding evict_rounds
  length-evict_rounds zero max_size m d h = omega arith
  length-evict_rounds (suc fuel) max_size m d h = elim (round fuel max_size m) [
    | inl (fits, e) ↦ rw e (omega arith)
    | inr (k, v, over, old, e) ↦
        let shorter = length-remove k v m d (oldest-get stamp m k v d old) in
        rw e (
          omega (
            arith,
            shorter,
            length-evict_rounds fuel max_size (remove k m) (remove-Distinct k m d)
                (omega (arith, shorter)),
          ))
  ]

  get-evict_rounds :
      (fuel max_size : ℕ) (m : Dict String V) (i : String) (u : V)
      → get i (evict_rounds stamp fuel max_size m) ≡ some u
      → get i m ≡ some u
  unfolding evict_rounds
  get-evict_rounds zero max_size m i u h = h
  get-evict_rounds (suc fuel) max_size m i u h = elim (round fuel max_size m) [
    | inl (_, e) ↦ rw e at h
    | inr (k, v, _, _, e) ↦
        ground
          (arith, get-remove k i m, get-evict_rounds fuel max_size (remove k m) i u (rw e at h))
  ]

  evicted_older :
      (fuel max_size : ℕ) (m : Dict String V) (i j : String) (u w : V)
      → Distinct m
      → get i m ≡ some u
      → get i (evict_rounds stamp fuel max_size m) ≡ none
      → get j (evict_rounds stamp fuel max_size m) ≡ some w
      → stamp u ≤ stamp w
  unfolding evict_rounds
  evicted_older zero max_size m i j u w d h gone stays = absurd (ground arith)
  evicted_older (suc fuel) max_size m i j u w d h gone stays = elim (round fuel max_size m) [
    | inl (_, e) ↦ absurd (ground (arith, rw e at gone))
    | inr (k, v, _, old, e) ↦
        let stays' = rw e at stays in
        let in_m = get-evict_rounds fuel max_size (remove k m) j w stays' in
        elim (Bool-cases (k == i)) [
          | inl same ↦ ground (
            arith,
            oldest-get stamp m k v d old,
            oldest-le stamp m k v j w old,
            get-remove k j m,
            eq_iff k i,
          )
          | inr other ↦
              evicted_older fuel max_size (remove k m) i j u w (remove-Distinct k m d)
                (ground (arith, get-remove k i m)) (rw e at gone) stays'
        ]
  ]

  pub evict-Distinct :
      (max_size : ℕ) (m : Dict String V) → Distinct m → Distinct (evict stamp max_size m)
  unfolding evict
  evict-Distinct max_size m d = evict_rounds-Distinct (length m) max_size m d

  -- The loop stops with as many entries as fit, and takes none from a map that fits.
  pub length-evict :
      (max_size : ℕ) (m : Dict String V)
      → Distinct m
      → length (evict stamp max_size m) ≡ min (length m) max_size
  unfolding evict
  length-evict max_size m d = length-evict_rounds (length m) max_size m d (omega arith)

  -- Nothing is entered or changed.
  pub get-evict :
      (max_size : ℕ) (m : Dict String V) (i : String) (u : V)
      → get i (evict stamp max_size m) ≡ some u
      → get i m ≡ some u
  unfolding evict
  get-evict max_size m i u h = get-evict_rounds (length m) max_size m i u h

  -- The newest entries stay: an entry that goes is no newer than any entry that stays.
  pub evict_keeps_newest :
      (max_size : ℕ) (m : Dict String V) (i j : String) (u w : V)
      → Distinct m
      → get i m ≡ some u
      → get i (evict stamp max_size m) ≡ none
      → get j (evict stamp max_size m) ≡ some w
      → stamp u ≤ stamp w
  unfolding evict
  evict_keeps_newest max_size m i j u w d h gone stays =
      evicted_older (length m) max_size m i j u w d h gone stays

  evict_rounds_fits :
      (fuel max_size : ℕ) (m : Dict String V)
      → length m ≤ max_size
      → evict_rounds stamp fuel max_size m ≡ m
  unfolding evict_rounds
  evict_rounds_fits zero max_size m h = refl
  evict_rounds_fits (suc fuel) max_size m h = ground arith

  pub evict_fits :
      (max_size : ℕ) (m : Dict String V) → length m ≤ max_size → evict stamp max_size m ≡ m
  unfolding evict
  evict_fits max_size m h = evict_rounds_fits (length m) max_size m h

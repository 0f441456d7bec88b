-- ===== src/Prelude/Dict.antt =====
-- `HashMap` as an association list. A key that is inserted again is replaced in place, so keys
-- stay distinct; the order of the list stands for the order in which the map is iterated.
use Prim.Native.Nat.{◌+◌, ◌≤◌}
use mathlib.Core.Path.{◌≡◌, refl}
use mathlib.Core.Bool.{Bool}
use mathlib.Core.Option.{Option, none, some}
use mathlib.Core.List.{List, [], ◌∷◌, map}
use native.Mathlib.Omega.{arith}
use pacto_bot_api.Prelude.Checks.{if◌then◌else◌}
use pacto_bot_api.Prelude.Keys.{HasEq}
use pacto_bot_api.Prelude.Lists.{length}

abbrev pub Dict {ℓ κ} : Type ℓ → Type κ → Type (ℓ ⊔ κ)
Dict K V = List (K × V)

module _ {ℓ κ} {K : Type ℓ} {V : Type κ} where
  abbrev pub keys : Dict K V → List K
  keys = map (λ e. e.0)

  abbrev pub values : Dict K V → List V
  values = map (λ e. e.1)

  unfoldable pub retain : (K → V → Bool) → Dict K V → Dict K V
  retain p [] = []
  retain p ((j, v) ∷ m) = let rest = retain p m in if p j v then (j, v) ∷ rest else rest

  pub length-retain : (p : K → V → Bool) (m : Dict K V) → length (retain p m) ≤ length m
  unfolding retain
  length-retain p [] = omega arith
  length-retain p ((j, v) ∷ m) = ground (arith, length-retain p m)

module _ {ℓ κ} {K : Type ℓ} {V : Type κ} ⦃e : HasEq K⦄ where
  unfoldable pub get : K → Dict K V → Option V
  get k [] = none
  get k ((j, v) ∷ m) = if e.eqb j k then some v else get k m

  unfoldable pub insert : K → V → Dict K V → Dict K V
  insert k v [] = (k, v) ∷ []
  insert k v ((j, w) ∷ m) = if e.eqb j k then (k, v) ∷ m else (j, w) ∷ insert k v m

  unfoldable pub remove : K → Dict K V → Dict K V
  remove k [] = []
  remove k ((j, v) ∷ m) = let rest = remove k m in if e.eqb j k then rest else (j, v) ∷ rest

  -- No key stands twice.
  abbrev pub Distinct : Dict K V → Type κ
  Distinct [] = Unit
  Distinct ((j, v) ∷ m) = (get j m ≡ none) × Distinct m

  pub get-insert :
      (k j : K) (v : V) (m : Dict K V)
      → get j (insert k v m) ≡ (if e.eqb k j then some v else get j m)
  unfolding get insert
  get-insert k j v [] = refl
  get-insert k j v ((i, w) ∷ m) =
      ground (arith, e.eqb_iff k j, e.eqb_iff i k, e.eqb_iff i j, get-insert k j v m)

  pub get-insert_same : (k : K) (v : V) (m : Dict K V) → get k (insert k v m) ≡ some v
  get-insert_same k v m = ground (arith, e.eqb_iff k k, get-insert k k v m)

  pub get-remove :
      (k j : K) (m : Dict K V) → get j (remove k m) ≡ (if e.eqb k j then none else get j m)
  unfolding get remove
  get-remove k j [] = ground arith
  get-remove k j ((i, v) ∷ m) =
      ground (arith, e.eqb_iff k j, e.eqb_iff i k, e.eqb_iff i j, get-remove k j m)

  pub length-insert-le : (k : K) (v : V) (m : Dict K V) → length (insert k v m) ≤ length m + 1
  unfolding insert
  length-insert-le k v [] = omega arith
  length-insert-le k v ((j, w) ∷ m) = ground (arith, length-insert-le k v m)

  pub insert-Distinct : (k : K) (v : V) (m : Dict K V) → Distinct m → Distinct (insert k v m)
  unfolding insert get
  insert-Distinct k v [] d = (refl, tt)
  insert-Distinct k v ((j, w) ∷ m) d =
      ground (arith, e.eqb_iff j k, e.eqb_iff k j, get-insert k j v m, insert-Distinct k v m)

  pub remove-Distinct : (k : K) (m : Dict K V) → Distinct m → Distinct (remove k m)
  unfolding remove
  remove-Distinct k [] d = tt
  remove-Distinct k ((j, w) ∷ m) d =
      ground (arith, e.eqb_iff k j, get-remove k j m, remove-Distinct k m)

  get-retain-none :
      (p : K → V → Bool) (k : K) (m : Dict K V) → get k m ≡ none → get k (retain p m) ≡ none
  unfolding get retain
  get-retain-none p k [] h = refl
  get-retain-none p k ((j, v) ∷ m) h = ground (arith, get-retain-none p k m)

  pub retain-Distinct : (p : K → V → Bool) (m : Dict K V) → Distinct m → Distinct (retain p m)
  unfolding retain
  retain-Distinct p [] d = tt
  retain-Distinct p ((j, v) ∷ m) d = ground (arith, get-retain-none p j m, retain-Distinct p m)

  -- What `retain` leaves under a key.
  abbrev pub kept : (K → V → Bool) → K → Option V → Option V
  kept p k none = none
  kept p k (some v) = if p k v then some v else none

  pub get-retain :
      (p : K → V → Bool) (k : K) (m : Dict K V)
      → Distinct m
      → get k (retain p m) ≡ kept p k (get k m)
  unfolding get retain
  get-retain p k [] d = refl
  get-retain p k ((j, v) ∷ m) d =
      ground (arith, e.eqb_iff j k, get-retain p k m, get-retain-none p j m)

  remove-absent : (k : K) (m : Dict K V) → get k m ≡ none → remove k m ≡ m
  unfolding get remove
  remove-absent k [] h = refl
  remove-absent k ((j, v) ∷ m) h = ground (arith, remove-absent k m)

  -- A new key that is taken away again leaves the entries as they were.
  pub remove-insert : (k : K) (v : V) (m : Dict K V) → get k m ≡ none → remove k (insert k v m) ≡ m
  unfolding get insert remove
  remove-insert k v [] h = ground (arith, e.eqb_iff k k)
  remove-insert k v ((j, w) ∷ m) h = ground (arith, e.eqb_iff j k, remove-insert k v m)

  -- A key that is there leaves exactly one entry less.
  pub length-remove :
      (k : K) (v : V) (m : Dict K V)
      → Distinct m
      → get k m ≡ some v
      → length (remove k m) + 1 ≡ length m
  unfolding get remove
  length-remove k v [] d h = cc
  length-remove k v ((j, w) ∷ m) d h =
      ground (arith, e.eqb_iff j k, length-remove k v m, remove-absent j m)

  pub length-remove-le : (k : K) (m : Dict K V) → length (remove k m) ≤ length m
  unfolding remove
  length-remove-le k [] = omega arith
  length-remove-le k ((j, v) ∷ m) = ground (arith, length-remove-le k m)

  -- A new key adds one entry, a key that is there none.
  pub length-insert :
      (k : K) (v : V) (m : Dict K V)
      → length (insert k v m) ≡ length m + elim (get k m) [ none ↦ 1 | some _ ↦ 0 ]
  unfolding get insert
  length-insert k v [] = refl
  length-insert k v ((j, w) ∷ m) = ground (arith, length-insert k v m)

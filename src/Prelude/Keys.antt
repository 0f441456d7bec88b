-- ===== src/Prelude/Keys.antt =====
-- Decidable equality as an interface, and its instances for text and numbers.
use Prim.Native.Nat.{ℕ}
use Prim.Native.String.{String}
use mathlib.Core.Path.{◌≡◌, subst}
use mathlib.Core.Logic.{◌↔◌, inl, inr}
use mathlib.Core.Bool.{Bool, true, ◌&&◌, ◌||◌}
use mathlib.Core.List.{List, [], ◌∷◌}
use native.Mathlib.Omega.{arith}
use text.Mathlib.Text.{◌==◌ as str_beq}
use text.Mathlib.TextEquality.{eq_iff}
use pacto_bot_api.Prelude.Checks.{Bool-cases, nat_beq, nat_beq_iff}
use pacto_bot_api.Prelude.Lists.{All}

-- `impl PartialEq`, with the promise that it decides equality.
pub record HasEq {ℓ} (A : Type ℓ) : Type ℓ where
  pub eqb : A → A → Bool
  pub eqb_iff : (x y : A) → (eqb x y ≡ true) ↔ (x ≡ y)

instance abbrev pub string_eq : HasEq String
string_eq = record { eqb = str_beq; eqb_iff = eq_iff }

instance abbrev pub nat_eq : HasEq ℕ
nat_eq = record { eqb = nat_beq; eqb_iff = nat_beq_iff }

-- A pair of keys, as a primary key over several columns.
pub pair_beq_iff {ℓ κ} :
    {A : Type ℓ} {B : Type κ} (ea : HasEq A) (eb : HasEq B) (x y : A × B)
    → (ea.eqb x.0 y.0 && eb.eqb x.1 y.1 ≡ true) ↔ (x ≡ y)
pair_beq_iff ea eb x y = ground (arith, ea.eqb_iff x.0 y.0, eb.eqb_iff x.1 y.1)

instance abbrev pub pair_eq {ℓ κ} :
    {A : Type ℓ} {B : Type κ} ⦃ea : HasEq A⦄ ⦃eb : HasEq B⦄ → HasEq (A × B)
pair_eq ⦃ea⦄ ⦃eb⦄ = record {
  eqb = λ x y. ea.eqb x.0 y.0 && eb.eqb x.1 y.1;
  eqb_iff = pair_beq_iff ea eb;
}

infix 50 ◌==◌
abbrev pub ◌==◌ {ℓ} : {K : Type ℓ} ⦃keys : HasEq K⦄ → K → K → Bool
◌==◌ ⦃keys⦄ = keys.eqb

-- `Vec::contains`, `iter().any(|x| x == a)`.
module _ {ℓ} {A : Type ℓ} ⦃e : HasEq A⦄ where
  unfoldable pub contains : List A → A → Bool
  contains [] a = Bool.false
  contains (x ∷ xs) a = e.eqb x a || contains xs a

  -- What holds of all entries holds of one that is contained.
  pub All-contains {κ} :
      (P : A → Type κ) (xs : List A) (a : A) → All P xs → contains xs a ≡ true → P a
  unfolding contains
  All-contains P [] a all h = cc
  All-contains P (x ∷ xs) a all h = elim (Bool-cases (e.eqb x a)) [
    | inl same ↦ subst P ((e.eqb_iff x a).0 same) all.0
    | inr other ↦ All-contains P xs a all.1 (ground arith)
  ]

  -- Two lists have the same entries in the same order.
  abbrev pub list_beq : List A → List A → Bool
  list_beq [] [] = true
  list_beq [] (y ∷ ys) = Bool.false
  list_beq (x ∷ xs) [] = Bool.false
  list_beq (x ∷ xs) (y ∷ ys) = e.eqb x y && list_beq xs ys

  pub list_beq_iff : (xs ys : List A) → (list_beq xs ys ≡ true) ↔ (xs ≡ ys)
  list_beq_iff [] [] = ground arith
  list_beq_iff [] (y ∷ ys) = ground arith
  list_beq_iff (x ∷ xs) [] = ground arith
  list_beq_iff (x ∷ xs) (y ∷ ys) = ground (arith, e.eqb_iff x y, list_beq_iff xs ys)

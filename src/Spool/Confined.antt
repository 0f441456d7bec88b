-- ===== src/Spool/Confined.antt =====
-- What src/spool.rs lets a handler's path lead to.
use pacto_bot_api.Prelude.{
  String, Bool, true, false, Option, none, some, [], ◌∷◌, ◌++◌, ◌≡◌, refl, ap, subst, ◌∙◌, arith,
  eq_iff, string_eq, if◌then◌else◌,
}
use pacto_bot_api.Errors.{ok, err, attachment_path_rejected}
use pacto_bot_api.Spool.{
  Components, Lookup, strip_prefix, opened, confined, canonicalized, resolve_outbound,
}

strip_prefix-eq-some :
    (root p rest : Components) → strip_prefix root p ≡ some rest → p ≡ root ++ rest
unfolding strip_prefix
strip_prefix-eq-some [] p rest h = cc
strip_prefix-eq-some (r ∷ root) [] rest h = cc
strip_prefix-eq-some (r ∷ root) (c ∷ p) rest h =
    ground (arith, eq_iff r c, strip_prefix-eq-some root p rest)

-- What a path that is accepted satisfies.
abbrev Confined : Lookup → Components → Components → Type 0
Confined fs root p =
    (rest : Components) × (p ≡ root ++ rest) × (fs.is_regular p ≡ true) × (fs.opens p ≡ some true)

opened-eq-ok : (c p : Components) (o : Option Bool) → opened c o ≡ ok p → (c ≡ p) × (o ≡ some true)
opened-eq-ok c p none h = cc
opened-eq-ok c p (some false) h = cc
opened-eq-ok c p (some true) h = (cc, refl)

if_regular :
    (fs : Lookup) (root c p rest : Components) (b : Bool)
    → c ≡ root ++ rest
    → fs.is_regular c ≡ b
    → (if b then opened c (fs.opens c) else err attachment_path_rejected) ≡ ok p
    → (c ≡ p) × Confined fs root p
if_regular fs root c p rest false below regular h = cc
if_regular fs root c p rest true below regular h =
    let (same, file) = opened-eq-ok c p (fs.opens c) h in
    (same, subst (Confined fs root) same (rest, below, regular, file))

confined-eq-ok :
    (fs : Lookup) (root c p : Components) (o : Option Components)
    → strip_prefix root c ≡ o
    → confined fs c o ≡ ok p
    → (c ≡ p) × Confined fs root p
confined-eq-ok fs root c p none s h = cc
confined-eq-ok fs root c p (some rest) s h =
    if_regular fs root c p rest (fs.is_regular c) (strip_prefix-eq-some root c rest s) refl h

canonicalized-eq-ok :
    (fs : Lookup) (root p : Components) (o : Option Components)
    → canonicalized fs root o ≡ ok p
    → (o ≡ some p) × Confined fs root p
canonicalized-eq-ok fs root p none h = cc
canonicalized-eq-ok fs root p (some c) h =
    let (same, inside) = confined-eq-ok fs root c p (strip_prefix root c) refl h in
    (ap some same, inside)

append_nil : (p : Components) → p ++ [] ≡ p
append_nil [] = refl
append_nil (c ∷ p) = ap (λ q. c ∷ q) (append_nil p)

below_root :
    (fs : Lookup) (root p : Components)
    → fs.is_regular root ≡ false
    → Confined fs root p
    → (name : String) × (rest : Components) × (p ≡ root ++ (name ∷ rest))
below_root fs root p directory ([], below, regular, _) =
    cc (directory, regular, below ∙ append_nil root)
below_root fs root p directory (name ∷ rest, below, regular, _) = (name, rest, below)

-- A path that a handler supplies is accepted only as where it really leads, and that lies below the
-- outbound directory, component by component and not the directory itself, and is a regular file both
-- before it is opened and when it is open.
pub resolve_outbound_lem :
    (fs : Lookup) (root supplied p : Components) (is_absolute : Bool)
    → fs.is_regular root ≡ false
    → resolve_outbound fs root is_absolute supplied ≡ ok p
    → (fs.canonicalize (if is_absolute then supplied else root ++ supplied) ≡ some p)
      × ((name : String) × (rest : Components) × (p ≡ root ++ (name ∷ rest)))
      × (fs.is_regular p ≡ true)
      × (fs.opens p ≡ some true)
unfolding resolve_outbound
resolve_outbound_lem fs root supplied p is_absolute directory h =
    let (leads, (rest, below, regular, file)) =
      canonicalized-eq-ok fs root p
        (fs.canonicalize (if is_absolute then supplied else root ++ supplied)) h in
    (leads, below_root fs root p directory (rest, below, regular, file), regular, file)

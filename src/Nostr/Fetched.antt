-- ===== src/Nostr/Fetched.antt =====
-- Which key package `fetch_key_package` of src/nostr.rs chooses.
use pacto_bot_api.Prelude.{
  ℕ, ◌+◌, ◌-◌, ◌≤◌, ◌<◌, ◌^◌, String, Bool, true, ◌&&◌, none, some, List, [], ◌∷◌, ◌≡◌, ◌≢◌, refl,
  sym, ap, subst, ◌∙◌, ◌⊎◌, inl, inr, All, arith, Bool-cases, ltb,
}
use native.Mathlib.Decide.{dec_lt}
use pacto_bot_api.Nostr.{Event}
use pacto_bot_api.Errors.{ok}
use pacto_bot_api.Nostr.KeyPackages.{
  Selection, Request, is_genuine, is_current, consider, select, nothing_selected, age, chosen,
  fetch_key_package,
}

abbrev pub Among : Event → List Event → Type 0
Among e [] = ⊥
Among e (x ∷ xs) = (x ≡ e) ⊎ Among e xs

-- A key package that may be taken.
abbrev pub is_acceptable : Request → Event → Bool
is_acceptable r e = is_genuine r e && is_current r e

-- What the loop holds of its variables after a step on `e`.
consider_lem :
    (r : Request) (e : Event) (sel : Selection)
    → (sel.selected_ts ≤ (consider r e sel).selected_ts)
      × (is_acceptable r e ≡ true → e.created_at ≤ (consider r e sel).selected_ts)
unfolding consider
consider_lem r e sel = (ground arith, λ a. ground arith)

-- The newest that may be taken, or what was selected before.
abbrev Chosen : Request → List Event → Selection → Selection → Type 0
Chosen r es sel sel' =
    ((sel'.selected ≡ sel.selected) × (sel'.selected_ts ≡ sel.selected_ts))
    ⊎ ((e : Event) × (sel'.selected ≡ some e)
        × (sel'.selected_ts ≡ e.created_at)
        × (is_acceptable r e ≡ true)
        × Among e es)

consider-Chosen :
    (r : Request) (e : Event) (es : List Event) (sel : Selection)
    → Chosen r (e ∷ es) sel (consider r e sel)
unfolding consider
consider-Chosen r e es sel =
    elim (Bool-cases (is_acceptable r e && ltb sel.selected_ts e.created_at)) [
      | inl h ↦ inr (e, ground arith, ground arith, ground arith, inl refl)
      | inr h ↦ inl (ground arith, ground arith)
    ]

select_lem :
    (r : Request) (es : List Event) (sel : Selection)
    → (sel.selected_ts ≤ (select r es sel).selected_ts)
      × All (λ e. is_acceptable r e ≡ true → e.created_at ≤ (select r es sel).selected_ts) es
      × Chosen r es sel (select r es sel)
unfolding select
select_lem r [] sel = (omega arith, tt, inl (refl, refl))
select_lem r (e ∷ es) sel =
    let (grows, newest, from) = select_lem r es (consider r e sel) in
    let (kept, covered) = consider_lem r e sel in
    (
      omega arith,
      ((λ a. let c = covered a in omega arith), newest),
      elim from [
        | inr (x, taken, at, fine, there) ↦ inr (x, taken, at, fine, inr there)
        | inl (same, at) ↦ elim (consider-Chosen r e es sel) [
          | inl (same', at') ↦ inl (same ∙ same', at ∙ at')
          | inr (x, taken, at', fine, there) ↦ inr (x, same ∙ taken, at ∙ at', fine, there)
        ]
      ],
    )

not_chosen :
    (r : Request) (sel : Selection) (e : Event) (a : ℕ)
    → sel.selected ≡ none
    → chosen r sel ≢ ok (e, a)
not_chosen r sel e a absent h = ground arith

chosen-some :
    (r : Request) (sel : Selection) (x e : Event) (a : ℕ)
    → sel.selected ≡ some x
    → chosen r sel ≡ ok (e, a)
    → (x ≡ e) × (age r.now sel.selected_ts ≡ a)
chosen-some r sel x e a taken h = ground arith

chosen_lem :
    (r : Request) (es : List Event) (sel : Selection) (e : Event) (a : ℕ)
    → Chosen r es nothing_selected sel
    → chosen r sel ≡ ok (e, a)
    → (is_acceptable r e ≡ true)
      × Among e es
      × (sel.selected_ts ≡ e.created_at)
      × (a ≡ age r.now e.created_at)
chosen_lem r es sel e a (inl (none_yet, _)) h = absurd (not_chosen r sel e a none_yet h)
chosen_lem r es sel e a (inr (x, taken, at, fine, there)) h =
    let (same, aged) = chosen-some r sel x e a taken h in
    (
      subst (λ y. is_acceptable r y ≡ true) same fine,
      subst (λ y. Among y es) same there,
      at ∙ ap (λ y. y.created_at) same,
      sym aged ∙ ap (age r.now) (at ∙ ap (λ y. y.created_at) same),
    )

-- A key package that is fetched is one of those the relays gave: its signature is good, it is of one
-- of the two kinds, by the recipient, at most a minute ahead of the clock and not older than the
-- window; and none that also is so is newer.
pub fetch_key_package_lem :
    (r : Request) (recipient_npub : String) (es : List Event) (e : Event) (a : ℕ)
    → fetch_key_package r recipient_npub (ok es) ≡ ok (e, a)
    → (is_acceptable r e ≡ true)
      × Among e es
      × All (λ x. is_acceptable r x ≡ true → x.created_at ≤ e.created_at) es
      × (a ≡ age r.now e.created_at)
unfolding fetch_key_package
fetch_key_package_lem r recipient_npub [] e a h = cc
fetch_key_package_lem r recipient_npub (x ∷ xs) e a h =
    let (_, newest, from) = select_lem r (x ∷ xs) nothing_selected in
    let (fine, there, at, aged) =
      chosen_lem r (x ∷ xs) (select r (x ∷ xs) nothing_selected) e a from h in
    (
      fine,
      there,
      subst (λ t. All (λ y. is_acceptable r y ≡ true → y.created_at ≤ t) (x ∷ xs)) at newest,
      aged,
    )

is_current_ahead : (r : Request) (e : Event) → is_acceptable r e ≡ true → e.created_at ≤ r.now + 60
unfolding is_current
is_current_ahead r e h = ground arith

age_cases :
    (now ts : ℕ)
    → ts ≤ now + 60
    → now < 2 ^ 64 - 60
    → ((ts ≤ now) × (age now ts ≡ now - ts))
      ⊎ ((now < ts) × (ts ≤ now + 60) × (2 ^ 64 - 60 ≤ age now ts))
unfolding age
age_cases now ts ahead small = elim (dec_lt now ts) [
  | yes later ↦ inr (later, ahead, omega arith)
  | no sooner ↦ inl (omega arith, omega arith)
]

-- The age of a fetched key package is what has passed since it was made if it was made before the
-- clock's time, and else, within the minute ahead that is let through, it wraps around.
pub age_lem :
    (r : Request) (recipient_npub : String) (es : List Event) (e : Event) (a : ℕ)
    → fetch_key_package r recipient_npub (ok es) ≡ ok (e, a)
    → r.now < 2 ^ 64 - 60
    → ((e.created_at ≤ r.now) × (a ≡ r.now - e.created_at))
      ⊎ ((r.now < e.created_at) × (e.created_at ≤ r.now + 60) × (2 ^ 64 - 60 ≤ a))
age_lem r recipient_npub es e a h small =
    let (fine, _, _, aged) = fetch_key_package_lem r recipient_npub es e a h in
    elim (age_cases r.now e.created_at (is_current_ahead r e fine) small) [
      | inl (sooner, past) ↦ inl (sooner, aged ∙ past)
      | inr (later, near, wrapped) ↦
          inr (later, near, subst (λ x. 2 ^ 64 - 60 ≤ x) (sym aged) wrapped)
    ]

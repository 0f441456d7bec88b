-- ===== src/Mls/Joining.antt =====
-- What the outcome of `AddMember` in src/mls.rs says of the group's members, by what the MLS
-- library documents of its calls.
use pacto_bot_api.Prelude.{
  String, Bool, true, false, Option, none, some, List, [], ◌∷◌, contains, ◌==◌, string_eq, ◌≡◌, ◌≢◌,
  refl, sym, ap, subst, ◌∙◌, arith, eq_iff, Bool-cases, inl, inr,
}
use pacto_bot_api.Nostr.{PublicKey, Event, UnsignedEvent}
use pacto_bot_api.Errors.{MlsError, engine}
use pacto_bot_api.Mls.Engine.{
  Answer, gives, refuses, panics, MdkError, from_mdk_error, is_missing_encoding_tag, MdkGroup,
  UpdateGroupResult, Mdk, resume, from_mdk, ok_or,
}
use pacto_bot_api.Mls.Worker.{
  removal_in, find_by_wire_id, checked, validate_key_package, AddMemberOutcome, first_welcome,
  settle_addition, find_group, remove_first, add_and_merge, add_member,
}

abbrev pub is_some : {A : Type 0} → Option A → Bool
is_some none = false
is_some (some _) = true

-- The library, with `roster s g` for the members of group `g` in its state `s`. A commit is staged
-- and takes effect when it is merged; what is refused changes no members.
pub record HasRoster {S : Type 0} (mdk : Mdk S) (roster : S → String → List PublicKey)
    : Type 0 where
  pub reads :
      (s : S) (g : String) (l : List PublicKey) → mdk.get_members g s ≡ gives l → l ≡ roster s g
  pub remove_stages :
      (s : S) (g : String) (ms : List PublicKey)
      → roster (mdk.remove_members g ms s).0 g ≡ roster s g
  pub add_stages :
      (s : S) (g : String) (ks : List Event) → roster (mdk.add_members g ks s).0 g ≡ roster s g
  pub refused_merge :
      (s s' : S) (g : String) (e : MdkError)
      → mdk.merge_pending_commit g s ≡ (s', refuses e)
      → roster s' g ≡ roster s g
  pub merged_removal :
      (s s1 s2 : S) (g : String) (m : PublicKey) (u : UpdateGroupResult)
      → mdk.remove_members g (m ∷ []) s ≡ (s1, gives u)
      → mdk.merge_pending_commit g s1 ≡ (s2, gives tt)
      → contains (roster s2 g) m ≡ false
  pub merged_addition :
      (s s1 s2 : S) (g : String) (k : Event) (u : UpdateGroupResult)
      → mdk.add_members g (k ∷ []) s ≡ (s1, gives u)
      → mdk.merge_pending_commit g s1 ≡ (s2, gives tt)
      → contains (roster s2 g) k.pubkey ≡ true
  pub welcomes :
      (s s1 : S) (g : String) (k : Event) (u : UpdateGroupResult)
      → mdk.add_members g (k ∷ []) s ≡ (s1, gives u)
      → first_welcome u.welcome_rumors ≢ none

-- Errors of the library carry no removal.
removal_in-from_mdk_error : (e : MdkError) → removal_in (from_mdk_error e) ≡ none
unfolding from_mdk_error is_missing_encoding_tag
removal_in-from_mdk_error MdkError.group_not_found = refl
removal_in-from_mdk_error MdkError.not_admin = refl
removal_in-from_mdk_error (MdkError.crypto _) = refl
removal_in-from_mdk_error (MdkError.key_package m) =
    elim (Bool-cases (m == "Missing required encoding tag")) [
      | inl e ↦ rw e refl
      | inr e ↦ rw e refl
    ]
removal_in-from_mdk_error (MdkError.welcome m) =
    elim (Bool-cases (m == "Missing required encoding tag")) [
      | inl e ↦ rw e refl
      | inr e ↦ rw e refl
    ]
removal_in-from_mdk_error (MdkError.other m) = refl

validated :
    (verify : Event → Bool) (k : Event) (recipient : PublicKey)
    → validate_key_package verify k recipient ≡ true
    → k.pubkey ≡ recipient
unfolding validate_key_package
validated verify k recipient h = ground (arith, eq_iff k.pubkey recipient)

module _ {S : Type 0} (mdk : Mdk S) (roster : S → String → List PublicKey)
    (law : HasRoster mdk roster) (g : String) where
  -- What a step leaves: `Q` of its value and its state; an error without a removal and the members
  -- of `before`.
  abbrev Leaves : {A : Type 0} → List PublicKey → (A → S → Type 0) → S × Answer MlsError A → Type 0
  Leaves before Q (s, gives a) = Q a s
  Leaves before Q (s, refuses e) = (removal_in e ≡ none) × (roster s g ≡ before)
  Leaves before Q (s, panics) = Unit

  merged :
      {A : Type 0} (before : List PublicKey) (s : S) (a : A) (Q : A → S → Type 0)
      (out : S × Answer MdkError (Unit {0}))
      → mdk.merge_pending_commit g s ≡ out
      → roster s g ≡ before
      → ((s' : S) → mdk.merge_pending_commit g s ≡ (s', gives tt) → Q a s')
      → Leaves before Q (resume (from_mdk out) (λ _ s'. (s', gives a)))
  merged before s a Q (s', gives tt) h same next = next s' h
  merged before s a Q (s', refuses e) h same next =
      (removal_in-from_mdk_error e, law.refused_merge s s' g e h ∙ same)
  merged before s a Q (s', panics) h same next = tt

  -- The removal before a restoration.
  abbrev Removed : PublicKey → S → Option Event → S → Type 0
  Removed recipient s none s' =
      (contains (roster s g) recipient ≡ false) × (roster s' g ≡ roster s g)
  Removed recipient s (some _) s' =
      (contains (roster s g) recipient ≡ true) × (contains (roster s' g) recipient ≡ false)

  removing :
      (recipient : PublicKey) (s : S) (out : S × Answer MdkError UpdateGroupResult)
      → mdk.remove_members g (recipient ∷ []) s ≡ out
      → contains (roster s g) recipient ≡ true
      → Leaves (roster s g) (Removed recipient s) (
          resume (from_mdk out) (λ update s1.
            resume
              (from_mdk (mdk.merge_pending_commit g s1))
              (λ _ s2. (s2, gives (some update.evolution_event)))))
  removing recipient s (s1, gives u) h before =
      merged (roster s g) s1 (some u.evolution_event) (Removed recipient s)
        (mdk.merge_pending_commit g s1) refl
        (sym (ap (λ o. roster o.0 g) h) ∙ law.remove_stages s g (recipient ∷ []))
        (λ s2 m. (before, law.merged_removal s s1 s2 g recipient u h m))
  removing recipient s (s1, refuses e) h before = (
    removal_in-from_mdk_error e,
    sym (ap (λ o. roster o.0 g) h) ∙ law.remove_stages s g (recipient ∷ []),
  )
  removing recipient s (s1, panics) h before = tt

  remove_first_lem :
      (recipient : PublicKey) (b : Bool) (s : S)
      → contains (roster s g) recipient ≡ b
      → Leaves (roster s g) (Removed recipient s) (remove_first mdk b g recipient s)
  unfolding remove_first
  remove_first_lem recipient false s h = (h, refl)
  remove_first_lem recipient true s h =
      removing recipient s (mdk.remove_members g (recipient ∷ []) s) refl h

  welcomed :
      (k : Event) (s : S) (w : Option UnsignedEvent) (ev : Event)
      → w ≢ none
      → contains (roster s g) k.pubkey ≡ true
      → (before : List PublicKey)
      → Leaves {A = UnsignedEvent × Event} before
          (λ _ s'. contains (roster s' g) k.pubkey ≡ true)
          (resume (ok_or w (engine "missing welcome rumor") s) (λ r s'. (s', gives (r, ev))))
  welcomed k s none ev some_welcome h before = absurd (some_welcome refl)
  welcomed k s (some w) ev some_welcome h before = h

  after_merge :
      (k : Event) (s s1 : S) (u : UpdateGroupResult)
      → mdk.add_members g (k ∷ []) s ≡ (s1, gives u)
      → (out : S × Answer MdkError (Unit {0})) → mdk.merge_pending_commit g s1 ≡ out
      → Leaves {A = UnsignedEvent × Event}
          (roster s g)
          (λ _ s'. contains (roster s' g) k.pubkey ≡ true)
          (resume (from_mdk out) (λ _ s2.
            resume
              (ok_or (first_welcome u.welcome_rumors) (engine "missing welcome rumor") s2)
              (λ r s3. (s3, gives (r, u.evolution_event)))))
  after_merge k s s1 u h (s2, gives tt) m =
      welcomed k s2 (first_welcome u.welcome_rumors) u.evolution_event (law.welcomes s s1 g k u h)
        (law.merged_addition s s1 s2 g k u h m) (roster s g)
  after_merge k s s1 u h (s2, refuses e) m = (
    removal_in-from_mdk_error e,
    law.refused_merge s1 s2 g e m ∙ (sym (ap (λ o. roster o.0 g) h) ∙ law.add_stages s g (k ∷ [])),
  )
  after_merge k s s1 u h (s2, panics) m = tt

  adding :
      (k : Event) (s : S) (out : S × Answer MdkError UpdateGroupResult)
      → mdk.add_members g (k ∷ []) s ≡ out
      → Leaves {A = UnsignedEvent × Event}
          (roster s g)
          (λ _ s'. contains (roster s' g) k.pubkey ≡ true)
          (resume (from_mdk out) (λ update s1.
            resume (from_mdk (mdk.merge_pending_commit g s1)) (λ _ s2.
              resume
                (ok_or (first_welcome update.welcome_rumors) (engine "missing welcome rumor") s2)
                (λ r s3. (s3, gives (r, update.evolution_event))))))
  adding k s (s1, gives u) h = after_merge k s s1 u h (mdk.merge_pending_commit g s1) refl
  adding k s (s1, refuses e) h =
      (removal_in-from_mdk_error e, sym (ap (λ o. roster o.0 g) h) ∙ law.add_stages s g (k ∷ []))
  adding k s (s1, panics) h = tt

  add_and_merge_lem :
      (k : Event) (s : S)
      → Leaves {A = UnsignedEvent × Event}
          (roster s g)
          (λ _ s'. contains (roster s' g) k.pubkey ≡ true)
          (add_and_merge mdk g k s)
  unfolding add_and_merge
  add_and_merge_lem k s = adding k s (mdk.add_members g (k ∷ []) s) refl

  -- The members after a failure, by whether its error carries a removal.
  abbrev Failed : PublicKey → S → S → Option Event → Type 0
  Failed recipient s s' none = roster s' g ≡ roster s g
  Failed recipient s s' (some _) =
      (contains (roster s g) recipient ≡ true) × (contains (roster s' g) recipient ≡ false)

  -- What the outcome of an addition says of the members before, in `s`, and after it.
  abbrev pub Says : PublicKey → S → S × Answer MlsError AddMemberOutcome → Type 0
  Says recipient s (s', gives out) =
      (contains (roster s' g) recipient ≡ true)
      × (is_some out.remove_evolution_event ≡ contains (roster s g) recipient)
  Says recipient s (s', refuses e) = Failed recipient s s' (removal_in e)
  Says recipient s (s', panics) = Unit

  settle_addition_lem :
      (k : Event) (s s1 : S) (remove : Option Event)
      (out : S × Answer MlsError (UnsignedEvent × Event))
      → Removed k.pubkey s remove s1
      → Leaves (roster s1 g) (λ _ s'. contains (roster s' g) k.pubkey ≡ true) out
      → Says k.pubkey s (settle_addition remove out)
  unfolding settle_addition
  settle_addition_lem k s s1 (some r) (s2, gives (w, ev)) (was, gone) h = (h, sym was)
  settle_addition_lem k s s1 none (s2, gives (w, ev)) (wasnt, same) h = (h, sym wasnt)
  settle_addition_lem k s s1 (some r) (s2, refuses e) (was, gone) (_, same) =
      (was, ap (λ l. contains l k.pubkey) same ∙ gone)
  settle_addition_lem k s s1 none (s2, refuses e) (wasnt, same) (plain, same') =
      subst (Failed k.pubkey s s2) (sym plain) (same' ∙ same)
  settle_addition_lem k s s1 (some r) (s2, panics) removed h = tt
  settle_addition_lem k s s1 none (s2, panics) removed h = tt

  after_removal :
      (k : Event) (s : S) (out : S × Answer MlsError (Option Event))
      → Leaves (roster s g) (Removed k.pubkey s) out
      → Says k.pubkey s
          (resume out (λ remove s1. settle_addition remove (add_and_merge mdk g k s1)))
  after_removal k s (s1, gives remove) h =
      settle_addition_lem k s s1 remove (add_and_merge mdk g k s1) h (add_and_merge_lem k s1)
  after_removal k s (s1, refuses e) (plain, same) = subst (Failed k.pubkey s s1) (sym plain) same
  after_removal k s (s1, panics) h = tt

  from_members :
      (k : Event) (s : S) (out : Answer MdkError (List PublicKey))
      → mdk.get_members g s ≡ out
      → Says k.pubkey s (
          resume (from_mdk (s, out)) (λ members s0.
            resume
              (remove_first mdk (contains members k.pubkey) g k.pubkey s0)
              (λ remove s1. settle_addition remove (add_and_merge mdk g k s1))))
  from_members k s (gives l) h =
      after_removal k s (remove_first mdk (contains l k.pubkey) g k.pubkey s) (
        remove_first_lem k.pubkey (contains l k.pubkey) s
          (ap (λ m. contains m k.pubkey) (sym (law.reads s g l h))))
  from_members k s (refuses e) h =
      subst (Failed k.pubkey s s) (sym (removal_in-from_mdk_error e)) refl
  from_members k s panics h = tt

  from_check :
      (verify : Event → Bool) (recipient : PublicKey) (k : Event) (s : S) (valid : Bool)
      → validate_key_package verify k recipient ≡ valid
      → Says recipient s (
          resume (checked valid s) (λ _ s1.
            resume (from_mdk (s1, mdk.get_members g s1)) (λ members s2.
              resume
                (remove_first mdk (contains members recipient) g recipient s2)
                (λ remove s3. settle_addition remove (add_and_merge mdk g k s3)))))
  from_check verify recipient k s false h = refl
  from_check verify recipient k s true h =
      subst
        (λ r. Says r s (
          resume (from_mdk (s, mdk.get_members g s)) (λ members s2.
            resume (remove_first mdk (contains members r) g r s2)
              (λ remove s3. settle_addition remove (add_and_merge mdk g k s3)))))
        (validated verify k recipient h) (from_members k s (mdk.get_members g s) refl)

-- Adding a member to a group that the engine has, the library keeping its word on the members and
-- no call panicking: on success the recipient is a member, and the outcome has the event of a
-- removal exactly if they were a member before; an error that carries the event of a removal says
-- that they were a member and are not any more; any other error leaves the members as they were.
pub add_member_lem :
    {S : Type 0} (mdk : Mdk S) (roster : S → String → List PublicKey) (law : HasRoster mdk roster)
    (verify : Event → Bool) (wire_id : String) (recipient : PublicKey) (key_package : Event) (s : S)
    (groups : List MdkGroup) (group : MdkGroup)
    → mdk.get_groups s ≡ gives groups
    → find_by_wire_id wire_id groups ≡ some group
    → Says mdk roster law group.mls_group_id recipient s
        (add_member mdk verify wire_id recipient key_package s)
unfolding add_member find_group
add_member_lem mdk roster law verify wire_id recipient key_package s groups group h found =
    rw (h, add_member)
      (rw (found) (
        from_check mdk roster law group.mls_group_id verify recipient key_package s
          (validate_key_package verify key_package recipient) refl))

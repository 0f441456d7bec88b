-- ===== src/Mls/Repairing.antt =====
-- The admins that the repair in src/mls.rs ends with.
use pacto_bot_api.Prelude.{
  String, true, ◌||◌, Option, none, some, List, [], ◌∷◌, ◌++◌, contains, string_eq, ◌≡◌, refl,
  subst, ◌∙◌, arith, eq_iff, Bool-cases, inl, inr, if◌then◌else◌,
}
use pacto_bot_api.Nostr.{PublicKey, Event}
use pacto_bot_api.Errors.{MlsError}
use pacto_bot_api.Mls.Engine.{
  Answer, gives, refuses, panics, MdkError, MdkGroup, UpdateGroupResult, Mdk, resume, from_mdk,
  ok_or,
}
use pacto_bot_api.Mls.Worker.{
  find_by_wire_id, find_group, extend_admins, repair_found, repair_group_admins,
}

contains-append :
    (xs ys : List String) (a : String) → contains (xs ++ ys) a ≡ (contains xs a || contains ys a)
unfolding contains
contains-append [] ys a = refl
contains-append (x ∷ xs) ys a = ground (arith, contains-append xs ys a)

contains_one : (m a : String) → contains (m ∷ []) a ≡ true → m ≡ a
unfolding contains
contains_one m a h = ground (arith, eq_iff m a)

contains_itself : (m : String) → contains (m ∷ []) m ≡ true
unfolding contains
contains_itself m = ground (arith, eq_iff m m)

-- One admin more, if the member is not one yet.
abbrev grown : List PublicKey → PublicKey → List PublicKey
grown admins m = if contains admins m then admins else admins ++ (m ∷ [])

contains-grown :
    (admins : List PublicKey) (m a : PublicKey)
    → contains (grown admins m) a ≡ (contains admins a || contains (m ∷ []) a)
contains-grown admins m a = elim (Bool-cases (contains admins m)) [
  | inl there ↦ elim (Bool-cases (contains (m ∷ []) a)) [
    | inl one ↦
        let same = contains_one m a one in
        ground (arith, subst (λ x. contains admins x ≡ true) same there)
    | inr other ↦ ground arith
  ]
  | inr absent ↦ rw absent (contains-append admins (m ∷ []) a)
]

extend_admins_lem :
    (admins members : List PublicKey) (a : PublicKey)
    → contains (extend_admins admins members) a ≡ (contains admins a || contains members a)
unfolding extend_admins contains
extend_admins_lem admins [] a = ground arith
extend_admins_lem admins (m ∷ ms) a =
    extend_admins_lem (grown admins m) ms a ∙ ground (arith, contains-grown admins m a)

module _ {S : Type 0} (mdk : Mdk S) where
  -- What a repair of `wire_id` from state `s` says of its new admins.
  abbrev Says : String → S → S × Answer MlsError (Event × List PublicKey) → Type 0
  Says wire_id s (s', gives (event, admins)) =
      (groups : List MdkGroup) × (group : MdkGroup) × (members : List PublicKey) × (mdk.get_groups s
        ≡ gives groups)
      × (find_by_wire_id wire_id groups ≡ some group)
      × (mdk.get_members group.mls_group_id s ≡ gives members)
      × ((a : PublicKey)
          → contains admins a ≡ (contains group.admin_pubkeys a || contains members a))
  Says wire_id s (s', refuses e) = Unit
  Says wire_id s (s', panics) = Unit

  committed :
      (wire_id : String) (s : S) (event : Event) (admins : List PublicKey)
      (merged : S × Answer MdkError (Unit {0}))
      → ((s' : S) → Says wire_id s (s', gives (event, admins)))
      → Says wire_id s (resume (from_mdk merged) (λ _ s'. (s', gives (event, admins))))
  committed wire_id s event admins (s', gives tt) says = says s'
  committed wire_id s event admins (s', refuses e) says = tt
  committed wire_id s event admins (s', panics) says = tt

  updated :
      (wire_id : String) (s : S) (g : String) (admins : List PublicKey)
      (out : S × Answer MdkError UpdateGroupResult)
      → ((s' : S) (event : Event) → Says wire_id s (s', gives (event, admins)))
      → Says wire_id s (
          resume (from_mdk out) (λ u s1.
            resume
              (from_mdk (mdk.merge_pending_commit g s1))
              (λ _ s2. (s2, gives (u.evolution_event, admins)))))
  updated wire_id s g admins (s1, gives u) says =
      committed wire_id s u.evolution_event admins (mdk.merge_pending_commit g s1)
        (λ s'. says s' u.evolution_event)
  updated wire_id s g admins (s1, refuses e) says = tt
  updated wire_id s g admins (s1, panics) says = tt

  after_members :
      (wire_id : String) (s : S) (groups : List MdkGroup) (group : MdkGroup)
      (r : Answer MdkError (List PublicKey))
      → mdk.get_groups s ≡ gives groups
      → find_by_wire_id wire_id groups ≡ some group
      → mdk.get_members group.mls_group_id s ≡ r
      → Says wire_id s (
          resume (from_mdk (s, r)) (λ members s0.
            resume
              (from_mdk (
                mdk.update_admins group.mls_group_id
                  (extend_admins group.admin_pubkeys members)
                  s0))
              (λ u s1. resume (from_mdk (mdk.merge_pending_commit group.mls_group_id s1)) (λ _ s2.
                (s2, gives (u.evolution_event, extend_admins group.admin_pubkeys members))))))
  after_members wire_id s groups group (gives members) lists found reads =
      updated wire_id s group.mls_group_id (extend_admins group.admin_pubkeys members)
        (mdk.update_admins group.mls_group_id (extend_admins group.admin_pubkeys members) s)
        (λ s' event. (
          groups,
          group,
          members,
          lists,
          found,
          reads,
          extend_admins_lem group.admin_pubkeys members,
        ))
  after_members wire_id s groups group (refuses e) lists found reads = tt
  after_members wire_id s groups group panics lists found reads = tt

  after_find :
      (wire_id : String) (s : S) (groups : List MdkGroup) (o : Option MdkGroup)
      → mdk.get_groups s ≡ gives groups
      → find_by_wire_id wire_id groups ≡ o
      → Says wire_id s (resume (ok_or o MlsError.group_not_found s) (repair_found mdk))
  unfolding repair_found
  after_find wire_id s groups none lists found = tt
  after_find wire_id s groups (some group) lists found =
      after_members wire_id s groups group (mdk.get_members group.mls_group_id s) lists found refl

  after_groups :
      (wire_id : String) (s : S) (r : Answer MdkError (List MdkGroup))
      → mdk.get_groups s ≡ r
      → Says wire_id s (
          resume
            (resume
              (from_mdk (s, r))
              (λ groups. ok_or (find_by_wire_id wire_id groups) MlsError.group_not_found))
            (repair_found mdk))
  after_groups wire_id s (gives groups) lists =
      after_find wire_id s groups (find_by_wire_id wire_id groups) lists refl
  after_groups wire_id s (refuses e) lists = tt
  after_groups wire_id s panics lists = tt

  -- Repairing the admins of a group: the admins that come back are exactly the group's admins and its
  -- members at that time.
  pub repair_group_admins_lem :
      (wire_id : String) (s : S) → Says wire_id s (repair_group_admins mdk wire_id s)
  unfolding repair_group_admins find_group
  repair_group_admins_lem wire_id s = after_groups wire_id s (mdk.get_groups s) refl

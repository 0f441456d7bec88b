-- ===== src/Mls/Sample.antt =====
-- A small MLS library with one group, to try the theorems on: it has the group's members, what the
-- pending commit makes of them, and whether it refuses to leave.
use pacto_bot_api.Prelude.{
  String, Bool, true, false, not, Option, none, some, List, [], ◌∷◌, ◌++◌, map, contains, keep,
  ◌==◌, string_eq, ◌≡◌, refl, sym, ap, ◌∙◌, arith, eq_iff,
}
use pacto_bot_api.Nostr.{PublicKey, Event, UnsignedEvent}
use pacto_bot_api.Mls.Engine.{
  Answer, gives, refuses, MdkError, other, MdkGroup, UpdateGroupResult, pending_proposal, Mdk,
}
use pacto_bot_api.Mls.Joining.{HasRoster}

pub record Engine : Type 0 where
  pub members : List PublicKey
  pub staged : Option (List PublicKey)
  pub is_last_admin : Bool

abbrev pub rumor : UnsignedEvent
rumor = record { pubkey = "bot"; created_at = 5; kind = 444; tags = []; content = "welcome" }

abbrev pub event_of : String → Event
event_of name = record {
  id = name;
  pubkey = "ephemeral";
  created_at = 5;
  kind = 445;
  tags = [];
  content = name;
  sig = "";
}

abbrev pub update_of : String → UpdateGroupResult
update_of name = record {
  mls_group_id = "group";
  evolution_event = event_of name;
  welcome_rumors = some (rumor ∷ []);
}

abbrev pub squad : MdkGroup
squad = record {
  mls_group_id = "group";
  nostr_group_id = "wire";
  name = "squad";
  admin_pubkeys = "bot" ∷ [];
}

unfoldable pub merge : Engine → Option (List PublicKey) → Engine × Answer MdkError (Unit {0})
merge s none = (s, refuses (other "no pending commit"))
merge s (some members) = (record s { members = members; staged = none }, gives tt)

unfoldable pub without : PublicKey → List PublicKey → List PublicKey
without m members = keep (λ x. not (x == m)) members

abbrev without_all : List PublicKey → List PublicKey → List PublicKey
without_all [] members = members
without_all (m ∷ ms) members = without m (without_all ms members)

abbrev authors : List Event → List PublicKey
authors ks = map (λ k. k.pubkey) ks

unfoldable pub leave : Engine → Bool → Engine × Answer MdkError UpdateGroupResult
leave s true = (s, refuses (other "last admin"))
leave s false = (s, gives (update_of "leave"))

abbrev pub sample : Mdk Engine
sample = record {
  get_groups = λ s. gives (squad ∷ []);
  get_members = λ g s. gives s.members;
  create_group = λ creator ks config s. (
    record s { members = creator ∷ authors ks },
    gives (record squad { name = config.name; nostr_group_id = "new" }, rumor ∷ []),
  );
  add_members =
      λ g ks s. (record s { staged = some (authors ks ++ s.members) }, gives (update_of "add"));
  remove_members =
      λ g ms s. (record s { staged = some (without_all ms s.members) }, gives (update_of "remove"));
  update_admins = λ g admins s. (record s { staged = some s.members }, gives (update_of "admins"));
  self_demote = λ g s. (record s { staged = some s.members }, gives (update_of "demote"));
  leave_group = λ g s. leave s s.is_last_admin;
  merge_pending_commit = λ g s. merge s s.staged;
  delete_group = λ g s. (record s { members = [] }, gives tt);
  create_message = λ g r s. (s, gives (event_of r.content));
  process_message = λ e s. (s, gives pending_proposal);
}

contains-without : (m : PublicKey) (l : List PublicKey) → contains (without m l) m ≡ false
unfolding contains without keep
contains-without m [] = refl
contains-without m (x ∷ xs) = ground (arith, contains-without m xs)

contains_first : (m : PublicKey) (l : List PublicKey) → contains (m ∷ l) m ≡ true
unfolding contains
contains_first m l = ground (arith, eq_iff m m)

refused_merge_lem :
    (s s' : Engine) (o : Option (List PublicKey)) (e : MdkError)
    → merge s o ≡ (s', refuses e)
    → s'.members ≡ s.members
unfolding merge
refused_merge_lem s s' none e h = sym (ap (λ x. x.0.members) h)
refused_merge_lem s s' (some l) e h = cc

merge_lem :
    (s s1 s2 : Engine) (l : List PublicKey)
    → s1.staged ≡ some l
    → merge s1 s1.staged ≡ (s2, gives tt)
    → s2.members ≡ l
unfolding merge
merge_lem s s1 s2 l staged h = sym (ap (λ x. x.0.members) (sym (ap (merge s1) staged) ∙ h))

pub sample-HasRoster : HasRoster sample (λ s g. s.members)
sample-HasRoster = record {
  reads = λ s g l h. cc;
  remove_stages = λ s g ms. refl;
  add_stages = λ s g ks. refl;
  refused_merge = λ s s' g e h. refused_merge_lem s s' s.staged e h;
  merged_removal = λ s s1 s2 g m u h mm.
      ap (λ l. contains l m)
        (merge_lem s s1 s2 (without m s.members) (sym (ap (λ x. x.0.staged) h)) mm)
      ∙ contains-without m s.members;
  merged_addition = λ s s1 s2 g k u h mm.
      ap (λ l. contains l k.pubkey)
        (merge_lem s s1 s2 (k.pubkey ∷ s.members) (sym (ap (λ x. x.0.staged) h)) mm)
      ∙ contains_first k.pubkey s.members;
  welcomes = λ s s1 g k u h absent. cc;
}

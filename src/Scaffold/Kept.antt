-- ===== src/Scaffold/Kept.antt =====
-- What a decided write of src/scaffold/safety.rs and the appending of a service leave as it was.
use pacto_bot_api.Prelude.{
  String, Bool, true, false, ◌&&◌, Option, none, some, Option-cases, ◌≡◌, ◌⊎◌, inl, inr, refl, sym,
  ap, ◌∙◌, arith, string_eq, pair_eq, contains, ◌==◌, Bool-cases,
}
use pacto_bot_api.Prelude.Dict.{get, insert, get-insert}
use pacto_bot_api.Errors.{Result, ok, err}
use pacto_bot_api.Scaffold.{
  PathName, Files, WriteDecision, write, skip, abort, MergeContext, is_populated_config,
  contains_secret_material, prompted, decide_by_policy, decide_secret, decide_existing,
  decide_write, Copying, copied, untouched, broken, copy, write_decided,
}
use pacto_bot_api.Scaffold.Compose.{updated, append_updated, append_compose_services}

-- The operator forces the overwriting, or was asked at a terminal and agreed.
abbrev Agreed : MergeContext → PathName → Type 0
Agreed ctx path =
    (ctx.policy.force ≡ true)
    ⊎ ((ctx.policy.interactive && ctx.is_interactive_tty ≡ true)
        × (ctx.prompt_overwrite path ≡ ok true))

-- A file that may be overwritten: it is text, not on the list, no configuration with bots and without
-- a secret key; and the operator wants it.
abbrev pub Permitted : MergeContext → PathName → Option String → Type 0
Permitted ctx path content =
    (contains ctx.denylist path ≡ false)
    × (is_populated_config path content ≡ false)
    × (contains_secret_material content ≡ ok false)
    × Agreed ctx path

prompted-eq-write : (r : Result Bool) → prompted r ≡ ok write → r ≡ ok true
prompted-eq-write (err e) h = cc
prompted-eq-write (ok true) h = refl
prompted-eq-write (ok false) h = cc

decide_by_policy-eq-write :
    (ctx : MergeContext) (path : PathName) → decide_by_policy ctx path ≡ ok write → Agreed ctx path
decide_by_policy-eq-write ctx path h = ground (arith, prompted-eq-write (ctx.prompt_overwrite path))

decide_secret-eq-write :
    (ctx : MergeContext) (path : PathName) (r : Result Bool)
    → decide_secret ctx path r ≡ ok write
    → (r ≡ ok false) × Agreed ctx path
decide_secret-eq-write ctx path (err e) h = cc
decide_secret-eq-write ctx path (ok true) h = cc
decide_secret-eq-write ctx path (ok false) h = (refl, decide_by_policy-eq-write ctx path h)

decide_existing-eq-write :
    (ctx : MergeContext) (path : PathName) (content : Option String)
    → decide_existing ctx path content ≡ ok write
    → Permitted ctx path content
unfolding decide_existing
decide_existing-eq-write ctx path content h =
    ground (arith, decide_secret-eq-write ctx path (contains_secret_material content))

-- A file is as it was, or was permitted to change.
abbrev pub Kept : MergeContext → PathName → Option String → Files → Type 0
Kept ctx path content now = (get path now ≡ some content) ⊎ Permitted ctx path content

insert-Kept :
    (ctx : MergeContext) (path target : PathName) (content left : Option String) (fs : Files)
    → (target ≡ path → Permitted ctx path content)
    → get path fs ≡ some content
    → Kept ctx path content (insert target left fs)
insert-Kept ctx path target content left fs permitted h = elim (Bool-cases (target == path)) [
  | inl same ↦ inr (permitted ((pair_eq.eqb_iff target path).0 same))
  | inr other ↦ inl (get-insert target path left fs ∙ rw other h)
]

copy-Kept :
    (ctx : MergeContext) (path target : PathName) (content : Option String) (text : String)
    → (outcome : Copying) (fs : Files) → (target ≡ path → Permitted ctx path content)
    → get path fs ≡ some content
    → Kept ctx path content (copy outcome target text fs).0
unfolding copy
copy-Kept ctx path target content text copied fs permitted h =
    insert-Kept ctx path target content (some text) fs permitted h
copy-Kept ctx path target content text untouched fs permitted h = inl h
copy-Kept ctx path target content text (broken left) fs permitted h =
    insert-Kept ctx path target content left fs permitted h

decide_write-eq-write :
    (ctx : MergeContext) (path target : PathName) (content : Option String) (fs : Files)
    → get path fs ≡ some content
    → decide_write ctx target fs ≡ ok write
    → target ≡ path
    → Permitted ctx path content
unfolding decide_write
decide_write-eq-write ctx path target content fs h decided same =
    decide_existing-eq-write ctx path content
      (sym (rw (h, decide_write) refl) ∙ (ap (λ t. decide_write ctx t fs) (sym same) ∙ decided))

decided-Kept :
    (ctx : MergeContext) (path target : PathName) (content : Option String) (text : String)
    → (fs : Files) (d : Result WriteDecision) → decide_write ctx target fs ≡ d
    → get path fs ≡ some content
    → Kept ctx path content (write_decided ctx target text fs).0
unfolding write_decided
decided-Kept ctx path target content text fs (err e) decided h = rw (decided, write_decided) (inl h)
decided-Kept ctx path target content text fs (ok write) decided h =
    rw (decided, write_decided)
      (copy-Kept ctx path target content text (ctx.copying target) fs
        (decide_write-eq-write ctx path target content fs h decided) h)
decided-Kept ctx path target content text fs (ok skip) decided h =
    rw (decided, write_decided) (inl h)
decided-Kept ctx path target content text fs (ok abort) decided h =
    rw (decided, write_decided) (inl h)

pub write_decided-Kept :
    (ctx : MergeContext) (path target : PathName) (content : Option String) (text : String)
    → (fs : Files) → get path fs ≡ some content
    → Kept ctx path content (write_decided ctx target text fs).0
write_decided-Kept ctx path target content text fs h =
    decided-Kept ctx path target content text fs (decide_write ctx target fs) refl h

-- A file that is made where there was none is another file.
new-Kept :
    (ctx : MergeContext) (path target : PathName) (content : Option String) (text : String)
    → (fs : Files) → get target fs ≡ none
    → get path fs ≡ some content
    → Kept ctx path content (copy (ctx.copying target) target text fs).0
new-Kept ctx path target content text fs new h =
    copy-Kept ctx path target content text (ctx.copying target) fs
      (λ same. cc (ap (λ p. get p fs) same, new, h)) h

append_updated-Kept :
    (ctx : MergeContext) (path target : PathName) (content : Option String) (fs : Files)
    → (extended : Result String) → get path fs ≡ some content
    → Kept ctx path content (append_updated ctx target fs extended).0
append_updated-Kept ctx path target content fs (err e) h = inl h
append_updated-Kept ctx path target content fs (ok text) h =
    write_decided-Kept ctx path target content text fs h

pub append-Kept :
    (ctx : MergeContext) (path target : PathName) (content : Option String) (text : String)
    → (fs : Files) → get path fs ≡ some content
    → Kept ctx path content (append_compose_services ctx target text fs).0
unfolding append_compose_services
append-Kept ctx path target content text fs h = elim (Option-cases (get target fs)) [
  | inl new ↦ rw (new, append_compose_services) (new-Kept ctx path target content text fs new h)
  | inr (old, there) ↦
      rw (there, append_compose_services)
        (append_updated-Kept ctx path target content fs (updated ctx old) h)
]

-- ===== src/Scaffold/Guarded.antt =====
-- What the scaffolding of src/scaffold/merge.rs never overwrites.
use pacto_bot_api.Prelude.{
  String, ◌&&◌, Option, none, some, ◌≡◌, ◌⊎◌, inl, inr, string_eq, pair_eq, ◌==◌, Bool-cases,
}
use pacto_bot_api.Prelude.Dict.{get}
use pacto_bot_api.Errors.{ok, err}
use pacto_bot_api.Scaffold.{PathName, Files, MergeContext}
use pacto_bot_api.Scaffold.Merge.{
  Node, file, directory, Entries, none_left, entry, Merged, join, target_name, is_ignored,
  merge_file, merge_compose, merge_text, made, and_then, merge_node, merge_entries, merge_tree,
  merge_optional, merge_rendered,
}
use pacto_bot_api.Scaffold.Kept.{Permitted, Kept, write_decided-Kept, append-Kept}

merge_text-Kept :
    (ctx : MergeContext) (path : PathName) (content : Option String) (target name text : String)
    → (fs : Files) → get path fs ≡ some content
    → Kept ctx path content (merge_text ctx target name text fs).0
unfolding merge_text merge_compose merge_file
merge_text-Kept ctx path content target name text fs h =
    let at : PathName = (target, target_name ctx name) in
    elim (Bool-cases (is_ignored name)) [
      | inl ignored ↦ rw (ignored, merge_text) (inl h)
      | inr taken ↦ elim (Bool-cases (name == "docker-compose.yml" && ctx.append_compose)) [
        | inl compose ↦ rw (taken, compose, merge_text) (append-Kept ctx path at content text fs h)
        | inr plain ↦
            rw (taken, plain, merge_text) (write_decided-Kept ctx path at content text fs h)
      ]
    ]

made-Kept :
    (ctx : MergeContext) (path : PathName) (content : Option String) (dir : String) (fs : Files)
    → (next : Merged) → get path fs ≡ some content
    → Kept ctx path content next.0
    → Kept ctx path content (made ctx dir fs next).0
made-Kept ctx path content dir fs next h kept = elim (Bool-cases (ctx.makes_dir dir)) [
  | inl works ↦ rw works kept
  | inr fails ↦ rw fails (inl h)
]

and_then-Kept :
    (ctx : MergeContext) (path : PathName) (content : Option String)
    → (first : Merged) (next : Files → Merged) → Kept ctx path content first.0
    → ((fs : Files) → get path fs ≡ some content → Kept ctx path content (next fs).0)
    → Kept ctx path content (and_then first next).0
and_then-Kept ctx path content (fs, err e) next kept rest = kept
and_then-Kept ctx path content (fs, ok written) next (inl same) rest = rest fs same
and_then-Kept ctx path content (fs, ok written) next (inr permitted) rest = inr permitted

mutual
  unfolding merge_node

  merge_node-Kept :
      (ctx : MergeContext) (path : PathName) (content : Option String) (target name : String)
      → (node : Node) (fs : Files) → get path fs ≡ some content
      → Kept ctx path content (merge_node ctx target name node fs).0
  merge_node-Kept ctx path content target name (file text) fs h =
      merge_text-Kept ctx path content target name text fs h
  merge_node-Kept ctx path content target name (directory es) fs h =
      let dir = join target (target_name ctx name) in
      let inside = merge_entries-Kept ctx path content dir es fs h in
      elim (Bool-cases (is_ignored name)) [
        | inl ignored ↦ rw (ignored, merge_node) (inl h)
        | inr taken ↦
            rw (taken, merge_node)
              (made-Kept ctx path content dir fs (merge_entries ctx dir es fs) h inside)
      ]

  merge_entries-Kept :
      (ctx : MergeContext) (path : PathName) (content : Option String) (target : String)
      → (es : Entries) (fs : Files) → get path fs ≡ some content
      → Kept ctx path content (merge_entries ctx target es fs).0
  merge_entries-Kept ctx path content target none_left fs h = inl h
  merge_entries-Kept ctx path content target (entry name node es) fs h =
      and_then-Kept ctx path content (merge_node ctx target name node fs)
        (λ now. merge_entries ctx target es now)
        (merge_node-Kept ctx path content target name node fs h)
        (λ now same. merge_entries-Kept ctx path content target es now same)

merge_optional-Kept :
    (ctx : MergeContext) (path : PathName) (content : Option String) (target : String)
    → (es : Option Entries) (fs : Files) → get path fs ≡ some content
    → Kept ctx path content (merge_optional ctx target es fs).0
unfolding merge_tree
merge_optional-Kept ctx path content target none fs h = inl h
merge_optional-Kept ctx path content target (some es) fs h =
    made-Kept ctx path content target fs (merge_entries ctx target es fs) h
      (merge_entries-Kept ctx path content target es fs h)

-- Whatever was rendered is merged into a project, with its directories and the service appended to a
-- `docker-compose.yml`, whatever fails and wherever it stops: a file that was there before has its
-- content still, or: it was text, not on the list, no configuration with bots and without a secret
-- key, and the operator forced the overwriting or was asked at a terminal and agreed.
pub merge_rendered_lem :
    (ctx : MergeContext) (path : PathName) (content : Option String)
    → (project bot : Option Entries) (fs : Files) → get path fs ≡ some content
    → (get path (merge_rendered ctx project bot fs).0 ≡ some content) ⊎ Permitted ctx path content
unfolding merge_rendered
merge_rendered_lem ctx path content project bot fs h =
    and_then-Kept ctx path content (merge_optional ctx ctx.project_dir project fs)
      (λ now. merge_optional ctx (join (join ctx.project_dir "bots") ctx.bot_id) bot now)
      (merge_optional-Kept ctx path content ctx.project_dir project fs h)
      (merge_optional-Kept ctx path content (join (join ctx.project_dir "bots") ctx.bot_id) bot)

-- ===== src/Scaffold/Merge.antt =====
-- `merge_rendered` and `merge_tree` of src/scaffold/merge.rs. What was rendered can be read, and its
-- files are text; the previews of changes are not modelled.
use pacto_bot_api.Prelude.{
  String, Bool, ◌&&◌, ◌||◌, Option, none, some, List, [], ◌∷◌, ◌++◌, ◌==◌, string_eq, if◌then◌else◌,
  format,
}
use pacto_bot_api.Errors.{Result, ok, err, io, ◌>>=◌}
use pacto_bot_api.Scaffold.{PathName, Files, MergeContext, ends_with, write_decided}
use pacto_bot_api.Scaffold.Compose.{append_compose_services}

-- What was rendered: files and directories under their names.
mutual
  pub data Node : Type 0 where
    file : String → Node
    directory : Entries → Node

  pub data Entries : Type 0 where
    none_left : Entries
    entry : String → Node → Entries → Entries

abbrev pub Merged : Type 0
Merged = Files × Result (List PathName)

-- `Path::join`
abbrev pub join : String → String → String
join dir name = format (dir ∷ "/" ∷ name ∷ [])

-- `bot_id_snake`
unfoldable pub bot_id_snake : String → String
bot_id_snake String.[] = String.[]
bot_id_snake (String.◌∷◌ c s) =
    let rest = bot_id_snake s in
    if String.◌∷◌ c String.[] == "-" || String.◌∷◌ c String.[] == "."
    then format ("_" ∷ rest ∷ [])
    else String.◌∷◌ c rest

-- The name under which a file or a directory is merged.
unfoldable pub target_name : MergeContext → String → String
unfolding bot_id_snake
target_name ctx name =
    if name == "bot.py" then format (bot_id_snake ctx.bot_id ∷ ".py" ∷ []) else name

unfoldable pub is_ignored : String → Bool
unfolding ends_with
is_ignored name = name == "__pycache__" || ends_with name ".pyc"

-- The decision on a file, the copy, and the target among those written.
unfoldable pub merge_file : MergeContext → PathName → String → Files → Merged
unfolding write_decided
merge_file ctx path content fs =
    let (now, outcome) = write_decided ctx path content fs in
    (now, outcome >>= λ written. ok (if written then path ∷ [] else []))

-- The appending to a `docker-compose.yml`: its target counts as written in any case.
unfoldable pub merge_compose : MergeContext → PathName → String → Files → Merged
unfolding append_compose_services
merge_compose ctx path content fs =
    let (now, outcome) = append_compose_services ctx path content fs in
    (now, outcome >>= λ _. ok (path ∷ []))

-- The loop's body, for a file.
unfoldable pub merge_text : MergeContext → String → String → String → Files → Merged
unfolding is_ignored target_name merge_compose merge_file
merge_text ctx target name content fs =
    if is_ignored name
    then (fs, ok [])
    else if name == "docker-compose.yml" && ctx.append_compose
    then merge_compose ctx (target, target_name ctx name) content fs
    else merge_file ctx (target, target_name ctx name) content fs

-- What follows `create_dir_all`, if it works.
abbrev pub made : MergeContext → String → Files → Merged → Merged
made ctx dir fs next = if ctx.makes_dir dir then next else (fs, err (io "create_dir_all"))

-- What is written first, and then, if nothing failed, what comes next.
abbrev pub and_then : Merged → (Files → Merged) → Merged
and_then (fs, err e) next = (fs, err e)
and_then (fs, ok written) next = ((next fs).0, (next fs).1 >>= λ more. ok (written ++ more))

-- The loop of `merge_tree`; a directory is created, and merged in turn.
unfoldable mutual
  unfolding merge_text target_name is_ignored

  pub merge_node : MergeContext → String → String → Node → Files → Merged
  merge_node ctx target name (file content) fs = merge_text ctx target name content fs
  merge_node ctx target name (directory es) fs =
      let inside = merge_entries ctx (join target (target_name ctx name)) es fs in
      if is_ignored name
      then (fs, ok [])
      else made ctx (join target (target_name ctx name)) fs inside

  pub merge_entries : MergeContext → String → Entries → Files → Merged
  merge_entries ctx target none_left fs = (fs, ok [])
  merge_entries ctx target (entry name node es) fs =
      and_then (merge_node ctx target name node fs) (λ now. merge_entries ctx target es now)

-- `merge_tree`
unfoldable pub merge_tree : MergeContext → String → Entries → Files → Merged
unfolding merge_node
merge_tree ctx target es fs = made ctx target fs (merge_entries ctx target es fs)

abbrev pub merge_optional : MergeContext → String → Option Entries → Files → Merged
merge_optional ctx target none fs = (fs, ok [])
merge_optional ctx target (some es) fs = merge_tree ctx target es fs

-- `merge_rendered`, for the directories `project` and `bot`, as far as they are there.
unfoldable pub merge_rendered : MergeContext → Option Entries → Option Entries → Files → Merged
unfolding merge_tree
merge_rendered ctx project bot fs =
    and_then (merge_optional ctx ctx.project_dir project fs)
      (λ now. merge_optional ctx (join (join ctx.project_dir "bots") ctx.bot_id) bot now)

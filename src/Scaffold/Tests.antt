-- ===== src/Scaffold/Tests.antt =====
-- A project with a secret in it and a `docker-compose.yml`, into which src/scaffold/merge.rs merges.
use pacto_bot_api.Prelude.{true, false, some, [], ◌∷◌, ◌≡◌, ◌⊎◌, refl, string_eq, pair_eq, contains}
use pacto_bot_api.Prelude.Dict.{get, insert}
use pacto_bot_api.Errors.{ok, err, config}
use pacto_bot_api.Scaffold.{
  Files, OverwritePolicy, MergeContext, mapping, text, field, end, copied, decide_write,
  decide_existing, copy, write_decided, ends_with, is_populated_config, contains_secret_material,
  includes, starts_with,
}
use pacto_bot_api.Scaffold.Compose.{
  append_compose_services, updated, add_service, services_in, put_field, is_text, bot_service,
}
use pacto_bot_api.Scaffold.Merge.{
  Entries, entry, none_left, file, directory, merge_rendered, merge_tree, merge_node, merge_text,
  merge_file, merge_compose, is_ignored, target_name, bot_id_snake,
}
use pacto_bot_api.Scaffold.Guarded.{merge_rendered_lem}
use pacto_bot_api.Scaffold.Kept.{Permitted}

-- Texts are read as a mapping with services, and every value is printed alike.
abbrev context_of : OverwritePolicy → MergeContext
context_of policy = record {
  project_dir = "p";
  policy = policy;
  denylist = [];
  bot_id = "my-bot";
  append_compose = true;
  is_interactive_tty = false;
  prompt_overwrite = λ p. ok false;
  makes_dir = λ d. true;
  copying = λ p. copied;
  from_str = λ s. some (mapping (field (text "services") (mapping end) end));
  to_string = λ v. some "services: my-bot";
}

abbrev forced : MergeContext
forced = context_of (record { force = true; interactive = false; skip_existing = false })

abbrev skipping : MergeContext
skipping = context_of (record { force = false; interactive = false; skip_existing = true })

abbrev project : Files
project =
    (("p", "docker-compose.yml"), some "services:")
    ∷ (("p/src", "a.txt"), some "old")
    ∷ (("p", "b.env"), some "k nsec = 1")
    ∷ []

abbrev rendered : Entries
rendered = entry "docker-compose.yml" (file "new") (
    entry "src" (directory (entry "a.txt" (file "new") none_left))
      (entry "b.env" (file "none") none_left))

abbrev bot_files : Entries
bot_files = entry "bot.py" (file "run") none_left

-- The service is appended, the plain file overwritten, and the secret stops the merge.
stopped_test : merge_rendered forced (some rendered) (some bot_files) project ≡ (
  (("p", "docker-compose.yml"), some "services: my-bot")
      ∷ (("p/src", "a.txt"), some "new")
      ∷ (("p", "b.env"), some "k nsec = 1")
      ∷ [],
  err (config "refusing to overwrite protected file"),
)
unfolding merge_rendered merge_tree merge_node merge_text merge_file merge_compose is_ignored
    target_name append_compose_services updated add_service services_in put_field is_text
    bot_service write_decided decide_write decide_existing copy ends_with is_populated_config
    contains_secret_material includes starts_with contains get insert
stopped_test = refl

-- A `docker-compose.yml` that is skipped is among the files written.
skipped_test :
    merge_rendered skipping
      (some (entry "docker-compose.yml" (file "new") none_left))
      (some bot_files)
      project
    ≡ (
      (("p", "docker-compose.yml"), some "services:")
          ∷ (("p/src", "a.txt"), some "old")
          ∷ (("p", "b.env"), some "k nsec = 1")
          ∷ (("p/bots/my-bot", "my_bot.py"), some "run")
          ∷ [],
      ok (("p", "docker-compose.yml") ∷ ("p/bots/my-bot", "my_bot.py") ∷ []),
    )
unfolding merge_rendered merge_tree merge_node merge_text merge_file merge_compose is_ignored
    target_name bot_id_snake append_compose_services updated add_service services_in put_field
    is_text bot_service write_decided decide_write decide_existing copy ends_with
    is_populated_config contains_secret_material includes starts_with contains get insert
skipped_test = refl

merge_rendered_lem_example :
    (get ("p", "b.env") (merge_rendered forced (some rendered) (some bot_files) project).0
      ≡ some (some "k nsec = 1"))
    ⊎ Permitted forced ("p", "b.env") (some "k nsec = 1")
unfolding get
merge_rendered_lem_example =
    merge_rendered_lem forced ("p", "b.env") (some "k nsec = 1") (some rendered) (some bot_files)
      project refl

-- ===== src/Scaffold.antt =====
-- src/scaffold/safety.rs: which files of a project the scaffolding may overwrite, and how a file is
-- written. The answers of the operator and the outcomes of writes are arguments. Compose and Merge
-- have src/scaffold/merge.rs.
pub mod Compose
pub mod Merge
pub mod Kept
pub mod Guarded
mod Tests
use pacto_bot_api.Prelude.{
  String, Bool, true, false, not, ◌&&◌, ◌||◌, Option, none, some, List, ◌==◌, string_eq, pair_eq,
  contains, if◌then◌else◌,
}
use pacto_bot_api.Prelude.Dict.{Dict, get, insert}
use pacto_bot_api.Errors.{Result, ok, err, io, config, ◌>>=◌}

-- A path: its directory and the name of the file.
abbrev pub PathName : Type 0
PathName = String × String

-- The files of the project; what is there but cannot be read as text has no text.
abbrev pub Files : Type 0
Files = Dict PathName (Option String)

pub record OverwritePolicy : Type 0 where
  pub force : Bool
  pub interactive : Bool
  pub skip_existing : Bool

pub data WriteDecision : Type 0 where
  write skip abort : WriteDecision

-- `str::starts_with`
pub starts_with : String → String → Bool
starts_with s String.[] = true
starts_with String.[] (String.◌∷◌ d t) = false
starts_with (String.◌∷◌ c s) (String.◌∷◌ d t) =
    String.◌∷◌ c String.[] == String.◌∷◌ d String.[] && starts_with s t

-- `str::contains`
pub includes : String → String → Bool
unfolding starts_with
includes String.[] t = starts_with String.[] t
includes (String.◌∷◌ c s) t = starts_with (String.◌∷◌ c s) t || includes s t

-- `str::ends_with`
pub ends_with : String → String → Bool
ends_with String.[] t = t == ""
ends_with (String.◌∷◌ c s) t = String.◌∷◌ c s == t || ends_with s t

-- `is_populated_config`, for a file that is there.
pub is_populated_config : PathName → Option String → Bool
unfolding includes
is_populated_config path none = false
is_populated_config path (some content) =
    path.1 == "pacto-bot-api.toml" && includes content "[[bots]]"

-- `contains_secret_material`
pub contains_secret_material : Option String → Result Bool
unfolding includes
contains_secret_material none = err (io "read_to_string")
contains_secret_material (some content) = ok (includes content "nsec1" || includes content "nsec =")

-- How a copy of a file ends: a failure may leave the target as it was, or with something else in it.
pub data Copying : Type 0 where
  copied untouched : Copying
  broken : Option String → Copying

-- `serde_yaml::Value`, without tags; the scalars that are no text are kept as they read.
mutual
  pub data Value : Type 0 where
    text scalar : String → Value
    sequence : Values → Value
    mapping : Fields → Value

  pub data Values : Type 0 where
    nil : Values
    cons : Value → Values → Values

  pub data Fields : Type 0 where
    end : Fields
    field : Value → Value → Fields → Fields

-- `MergeContext`, with the terminal and the operator, the outcomes of `create_dir_all` and of writes,
-- and the reader and the printer of the crate `serde_yaml`.
pub record MergeContext : Type 0 where
  pub project_dir : String
  pub policy : OverwritePolicy
  pub denylist : List PathName
  pub bot_id : String
  pub append_compose : Bool
  pub is_interactive_tty : Bool
  pub prompt_overwrite : PathName → Result Bool
  pub makes_dir : String → Bool
  pub copying : PathName → Copying
  pub from_str : String → Option Value
  pub to_string : Value → Option String

abbrev pub prompted : Result Bool → Result WriteDecision
prompted (err e) = err e
prompted (ok true) = ok write
prompted (ok false) = ok skip

abbrev pub decide_by_policy : MergeContext → PathName → Result WriteDecision
decide_by_policy ctx path =
    if ctx.policy.force
    then ok write
    else if not ctx.policy.interactive || not ctx.is_interactive_tty
    then if ctx.policy.skip_existing
      then ok skip
      else err (config "refusing to overwrite existing file without interactive prompt")
    else prompted (ctx.prompt_overwrite path)

abbrev pub decide_secret : MergeContext → PathName → Result Bool → Result WriteDecision
decide_secret ctx path (err e) = err e
decide_secret ctx path (ok true) = err (config "refusing to overwrite protected file")
decide_secret ctx path (ok false) = decide_by_policy ctx path

-- The tests of `decide_write` on a file that exists.
pub decide_existing : MergeContext → PathName → Option String → Result WriteDecision
unfolding is_populated_config contains_secret_material contains
decide_existing ctx path content =
    if contains ctx.denylist path
    then err (config "refusing to overwrite protected file")
    else if is_populated_config path content
    then err (config "refusing to overwrite protected file")
    else decide_secret ctx path (contains_secret_material content)

-- `decide_write`
pub decide_write : MergeContext → PathName → Files → Result WriteDecision
unfolding decide_existing
decide_write ctx path fs = elim (get path fs) [
  | none ↦ ok write
  | some content ↦ decide_existing ctx path content
]

-- `fs::copy`, or `fs::write`.
pub copy : Copying → PathName → String → Files → Files × Result (Unit {0})
copy copied path content fs = (insert path (some content) fs, ok tt)
copy untouched path content fs = (fs, err (io "copy"))
copy (broken left) path content fs = (insert path left fs, err (io "copy"))

-- The decision on a file, and the write; the answer says whether it was written.
pub write_decided : MergeContext → PathName → String → Files → Files × Result Bool
unfolding decide_write copy
write_decided ctx path content fs = elim (decide_write ctx path fs) [
  | err e ↦ (fs, err e)
  | ok write ↦
      let (now, outcome) = copy (ctx.copying path) path content fs in
      (now, outcome >>= λ _. ok true)
  | ok skip ↦ (fs, ok false)
  | ok abort ↦ (fs, ok false)
]

-- ===== src/Spool.antt =====
-- src/spool.rs: the directories in which attachments are staged. A directory is what a listing shows
-- of it; the rest of the file system, the clock and the random bytes are arguments.
pub mod Sweeping
pub mod Confined
mod Tests
use pacto_bot_api.Prelude.{
  ℕ, ◌+◌, ◌-◌, String, Bool, true, false, not, ◌&&◌, ◌||◌, Option, none, some, List, [], ◌∷◌, ◌++◌,
  ◌==◌, string_eq, leb, if◌then◌else◌, format,
}
use pacto_bot_api.Prelude.Dict.{Dict, get, insert, remove, retain}
use pacto_bot_api.Errors.{Result, ok, err, io, attachment_path_rejected, ◌>>=◌, ◌>>◌}

-- An entry of a directory: whether it is a regular file, its time of modification, and whether the
-- file system lets it be removed.
pub record Entry : Type 0 where
  pub is_file : Bool
  pub modified : Option ℕ
  pub is_removable : Bool

-- What `read_dir` answers.
pub data Listing : Type 0 where
  missing unreadable : Listing
  entries : Dict String Entry → Listing

-- `SWEEP_ENTRY_THRESHOLD`, `SWEEP_INTERVAL` and `INBOUND_RETENTION`, in seconds.
abbrev pub sweep_entry_threshold : ℕ
sweep_entry_threshold = 32

abbrev pub sweep_interval : ℕ
sweep_interval = 300

abbrev pub inbound_retention : ℕ
inbound_retention = 3600

-- `Spool` with its `SweepState`, and its two directories.
pub record Spool : Type 0 where
  pub inbound : Listing
  pub outbound : Listing
  pub last_sweep : ℕ
  pub inbound_writes_since_sweep : ℕ

-- The name of a new file.
pub file_name : String → String → String
file_name stem extension = if extension == "" then stem else format (stem ∷ "." ∷ extension ∷ [])

abbrev new_entry : ℕ → Entry
new_entry now = record { is_file = true; modified = some now; is_removable = true }

abbrev created : ℕ → String → Listing → Option Listing
created now name missing = none
created now name unreadable = none
created now name (entries es) = elim (get name es) [
  | some _ ↦ none
  | none ↦ some (entries (insert name (new_entry now) es))
]

-- `Spool::create_inbound`, with the random stem that was drawn, if it was, and whether the file system
-- lets the file be made; a file of that name, or no directory, is an error too.
pub create_inbound : Option String → Bool → ℕ → String → Spool → Spool × Result String
unfolding file_name
create_inbound none writable now extension s = (s, err (io "getrandom"))
create_inbound (some stem) false now extension s = (s, err (io "open"))
create_inbound (some stem) true now extension s =
    elim (created now (file_name stem extension) s.inbound) [
      | none ↦ (s, err (io "open"))
      | some inbound ↦ (
        record s {
          inbound = inbound;
          inbound_writes_since_sweep = s.inbound_writes_since_sweep + 1;
        },
        ok (file_name stem extension),
      )
    ]

-- `Spool::needs_sweep`
pub needs_sweep : ℕ → Spool → Bool
needs_sweep instant s =
    leb sweep_entry_threshold s.inbound_writes_since_sweep
    || leb sweep_interval (instant - s.last_sweep)

-- The age test of `delete_stale`; a time ahead of the clock counts as age zero.
pub is_stale : ℕ → ℕ → Entry → Bool
is_stale now retention e = elim e.modified [
  | none ↦ false
  | some m ↦ e.is_file && leb retention (now - m)
]

-- The loop of `delete_stale`: what is stale and can be removed goes.
pub delete_entries : ℕ → ℕ → Dict String Entry → Dict String Entry
unfolding is_stale
delete_entries now retention es =
    retain (λ _ e. not (is_stale now retention e && e.is_removable)) es

-- `delete_stale`
pub delete_stale : ℕ → ℕ → Listing → Result Listing
unfolding delete_entries
delete_stale now retention missing = ok missing
delete_stale now retention unreadable = err (io "read_dir")
delete_stale now retention (entries es) = ok (entries (delete_entries now retention es))

-- What follows the sweep of the inbound directory. `instant` is read from the monotonic clock, `now`
-- from the system's.
pub finish_sweep : ℕ → ℕ → ℕ → Listing → Spool → Spool × Result (Unit {0})
unfolding delete_stale
finish_sweep instant now outbound_retention inbound s =
    elim (delete_stale now outbound_retention s.outbound) [
      | err e ↦ (record s { inbound = inbound }, err e)
      | ok outbound ↦ (
        record {
          inbound = inbound;
          outbound = outbound;
          last_sweep = instant;
          inbound_writes_since_sweep = 0;
        },
        ok tt,
      )
    ]

-- `Spool::sweep`
pub sweep : ℕ → ℕ → ℕ → Spool → Spool × Result (Unit {0})
unfolding needs_sweep delete_stale finish_sweep
sweep instant now outbound_retention s =
    if needs_sweep instant s
    then elim (delete_stale now inbound_retention s.inbound) [
      | err e ↦ (s, err e)
      | ok inbound ↦ finish_sweep instant now outbound_retention inbound s
    ]
    else (s, ok tt)

-- `Spool::sweep_inbound_now`
pub sweep_inbound_now : ℕ → Spool → Spool × Result (Unit {0})
unfolding delete_stale
sweep_inbound_now now s = elim (delete_stale now inbound_retention s.inbound) [
  | err e ↦ (s, err e)
  | ok inbound ↦ (record s { inbound = inbound }, ok tt)
]

-- The components of a path.
abbrev pub Components : Type 0
Components = List String

-- `Path::strip_prefix`
pub strip_prefix : Components → Components → Option Components
strip_prefix [] p = some p
strip_prefix (r ∷ root) [] = none
strip_prefix (r ∷ root) (c ∷ p) = let rest = strip_prefix root p in if r == c then rest else none

-- The file system, at three moments: where a path leads, whether what is there is a regular file, and
-- whether what was opened, if it could be, is one.
pub record Lookup : Type 0 where
  pub canonicalize : Components → Option Components
  pub is_regular : Components → Bool
  pub opens : Components → Option Bool

abbrev opened : Components → Option Bool → Result Components
opened path none = err attachment_path_rejected
opened path (some false) = err attachment_path_rejected
opened path (some true) = ok path

abbrev confined : Lookup → Components → Option Components → Result Components
confined fs canonical none = err attachment_path_rejected
confined fs canonical (some _) =
    if fs.is_regular canonical
    then opened canonical (fs.opens canonical)
    else err attachment_path_rejected

abbrev canonicalized : Lookup → Components → Option Components → Result Components
canonicalized fs root none = err attachment_path_rejected
canonicalized fs root (some canonical) = confined fs canonical (strip_prefix root canonical)

-- `Spool::resolve_outbound`, for a supplied path and whether it is absolute.
pub resolve_outbound : Lookup → Components → Bool → Components → Result Components
unfolding strip_prefix
resolve_outbound fs root is_absolute supplied =
    canonicalized fs root (fs.canonicalize (if is_absolute then supplied else root ++ supplied))

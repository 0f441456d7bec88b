-- ===== src/Spool/Tests.antt =====
-- A spool of src/spool.rs with an old and a new file, and the theorems about it.
use pacto_bot_api.Prelude.{
  ℕ, String, true, false, some, [], ◌∷◌, ◌++◌, ◌≡◌, refl, string_eq, if◌then◌else◌,
}
use pacto_bot_api.Prelude.Dict.{Dict, get, retain}
use pacto_bot_api.Errors.{ok, err, io}
use pacto_bot_api.Spool.{
  Entry, missing, entries, Spool, Components, Lookup, needs_sweep, is_stale, sweep, create_inbound,
  file_name, sweep_inbound_now, delete_stale, delete_entries, strip_prefix, resolve_outbound,
}
use pacto_bot_api.Spool.Sweeping.{Swept, sweep_lem}
use pacto_bot_api.Spool.Confined.{resolve_outbound_lem}

abbrev file_at : ℕ → Entry
file_at at = record { is_file = true; modified = some at; is_removable = true }

abbrev listed : Dict String Entry
listed = ("old", file_at 0) ∷ ("new", file_at 4900) ∷ []

abbrev staged : Spool
staged = record {
  inbound = entries listed;
  outbound = missing;
  last_sweep = 0;
  inbound_writes_since_sweep = 2;
}

sweep_lem_example :
    (needs_sweep 5000 staged ≡ false → sweep 5000 5000 60 staged ≡ (staged, ok tt))
    × (needs_sweep 5000 staged ≡ true
        → Swept 5000 (entries listed) (sweep 5000 5000 60 staged).0.inbound
          × ((sweep 5000 5000 60 staged).1 ≡ ok tt
              → needs_sweep 5000 (sweep 5000 5000 60 staged).0 ≡ false))
unfolding get
sweep_lem_example = sweep_lem 5000 5000 60 staged (refl, (refl, tt))

-- A file system in which every path leads where it says, and only what lies two deep is a file.
abbrev files : Lookup
files = record {
  canonicalize = λ p. some p;
  is_regular = λ p. elim p [ [] ↦ false | c ∷ rest ↦ elim rest [ [] ↦ false | _ ∷ _ ↦ true ] ];
  opens = λ p. some true;
}

abbrev root : Components
root = "spool" ∷ []

abbrev supplied : Components
supplied = "a" ∷ []

resolve_outbound_lem_example :
    (files.canonicalize (if false then supplied else root ++ supplied) ≡ some (root ++ supplied))
    × ((name : String) × (rest : Components) × (root ++ supplied ≡ root ++ (name ∷ rest)))
    × (files.is_regular (root ++ supplied) ≡ true)
    × (files.opens (root ++ supplied) ≡ some true)
unfolding resolve_outbound strip_prefix
resolve_outbound_lem_example =
    resolve_outbound_lem files root supplied (root ++ supplied) false refl refl

-- A name that is taken is refused, and counts as no write.
taken_test : create_inbound (some "old") true 5000 "" staged ≡ (staged, err (io "open"))
unfolding create_inbound file_name get
taken_test = refl

-- A sweep at the start, or at the end, does not look at the gate.
unconditional_test :
    (sweep_inbound_now 5000 staged).0.inbound ≡ entries (("new", file_at 4900) ∷ [])
unfolding sweep_inbound_now delete_stale delete_entries is_stale retain
unconditional_test = refl

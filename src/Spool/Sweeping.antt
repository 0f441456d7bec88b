-- ===== src/Spool/Sweeping.antt =====
-- What a sweep of src/spool.rs deletes, and when it is due again.
use pacto_bot_api.Prelude.{
  ℕ, String, true, false, not, ◌&&◌, Option, none, some, ◌≡◌, refl, ap, ◌∙◌, arith, string_eq,
  if◌then◌else◌,
}
use pacto_bot_api.Prelude.Dict.{Dict, Distinct, get, kept, get-retain}
use pacto_bot_api.Errors.{Result, ok, err}
use pacto_bot_api.Spool.{
  missing, unreadable, Entry, Listing, entries, Spool, needs_sweep, is_stale, delete_entries,
  delete_stale, finish_sweep, sweep, inbound_retention,
}

-- What is left of an entry: a file that is stale goes, if the file system lets it.
abbrev pub left_in : ℕ → Option Entry → Option Entry
left_in now none = none
left_in now (some e) = if is_stale now inbound_retention e && e.is_removable then none else some e

kept-left_in :
    (now : ℕ) (name : String) (o : Option Entry)
    → kept (λ _ x. not (is_stale now inbound_retention x && x.is_removable)) name o ≡ left_in now o
kept-left_in now name none = refl
kept-left_in now name (some e) = ground arith

get-delete_entries :
    (now : ℕ) (name : String) (es : Dict String Entry)
    → Distinct es
    → get name (delete_entries now inbound_retention es) ≡ left_in now (get name es)
unfolding delete_entries
get-delete_entries now name es d =
    get-retain (λ _ x. not (is_stale now inbound_retention x && x.is_removable)) name es d
    ∙ kept-left_in now name (get name es)

-- The two ends of a sweep: the inbound directory is swept either way, and the gate is closed again if
-- the outbound one could be read.
finish_sweep_lem :
    (instant now retention : ℕ) (inbound : Listing) (s : Spool) (r : Result Listing)
    → delete_stale now retention s.outbound ≡ r
    → ((finish_sweep instant now retention inbound s).0.inbound ≡ inbound)
      × ((finish_sweep instant now retention inbound s).1 ≡ ok tt
          → needs_sweep instant (finish_sweep instant now retention inbound s).0 ≡ false)
unfolding finish_sweep needs_sweep
finish_sweep_lem instant now retention inbound s (ok l) h =
    (rw (h, finish_sweep) refl, λ _. rw (h, finish_sweep) (ground arith))
finish_sweep_lem instant now retention inbound s (err e) h =
    (rw (h, finish_sweep) refl, λ done. absurd (stopped done))
  where
    stopped : (finish_sweep instant now retention inbound s).1 ≡ ok tt → ⊥
    stopped done = cc (ap (λ x. x) done, h)

-- What the sweep leaves of a listing: of a directory that can be read, of each file what is left of it.
abbrev pub Swept : ℕ → Listing → Listing → Type 0
Swept now missing l = l ≡ missing
Swept now unreadable l = l ≡ unreadable
Swept now (entries es) l =
    (swept : Dict String Entry) × (l ≡ entries swept)
    × ((name : String) → get name swept ≡ left_in now (get name es))

abbrev pub HasNames : Listing → Type 0
HasNames missing = Unit
HasNames unreadable = Unit
HasNames (entries es) = Distinct es

-- The sweep once its gate is open, by what the inbound directory is.
open_gate_lem :
    (instant now retention : ℕ) (s : Spool) (l : Listing)
    → HasNames l
    → s.inbound ≡ l
    → needs_sweep instant s ≡ true
    → Swept now l (sweep instant now retention s).0.inbound
      × ((sweep instant now retention s).1 ≡ ok tt
          → needs_sweep instant (sweep instant now retention s).0 ≡ false)
unfolding sweep delete_stale
open_gate_lem instant now retention s missing d listed open_gate =
    rw (open_gate, listed)
      (finish_sweep_lem instant now retention missing s (delete_stale now retention s.outbound)
        refl)
open_gate_lem instant now retention s unreadable d listed open_gate =
    rw (open_gate, listed) (listed, λ done. cc done)
open_gate_lem instant now retention s (entries es) d listed open_gate =
    let swept = delete_entries now inbound_retention es in
    let (emptied, closed) =
      finish_sweep_lem instant now retention (entries swept) s
        (delete_stale now retention s.outbound) refl in
    rw (open_gate, listed) ((swept, emptied, λ name. get-delete_entries now name es d), closed)

-- Over an inbound directory that is missing, cannot be read, or has files of distinct names: a sweep
-- whose gate is closed does nothing and succeeds. One whose gate is open deletes of the inbound files,
-- if the directory can be read, exactly those that are stale and can be removed, and no file appears,
-- whether or not the outbound directory can be read; if it succeeds, its gate is closed again.
pub sweep_lem :
    (instant now retention : ℕ) (s : Spool)
    → HasNames s.inbound
    → (needs_sweep instant s ≡ false → sweep instant now retention s ≡ (s, ok tt))
      × (needs_sweep instant s ≡ true
          → Swept now s.inbound (sweep instant now retention s).0.inbound
            × ((sweep instant now retention s).1 ≡ ok tt
                → needs_sweep instant (sweep instant now retention s).0 ≡ false))
unfolding sweep
sweep_lem instant now retention s d =
    (λ shut. rw shut refl, open_gate_lem instant now retention s s.inbound d refl)

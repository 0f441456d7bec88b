-- ===== src/Reset/Done.antt =====
-- The reset of an encrypted store in src/mls_reset.rs comes to its end.
use pacto_bot_api.Prelude.{
  ℕ, ◌*◌, ◌≤◌, String, Bool, true, false, not, List, [], ◌∷◌, string_eq, pair_eq, nat_eq, ◌≡◌, ◌≢◌,
  refl, arith, Bool-cases, inl, inr, All, length, keep, length-keep-le,
}
use pacto_bot_api.Prelude.Dict.{Dict}
use pacto_bot_api.Reset.Io.{File, World, Outcome, done, stopped}
use pacto_bot_api.Reset.Moves.{
  Moment, exists, any_exists, archive_files, new_archive_dir, move_away, check_clear,
}
use pacto_bot_api.Reset.Clearing.{
  AreGone, GoneIn, Clears, absent_paths, both_parts, new_archive_dir-gone, archive_files-Clears,
}
use pacto_bot_api.Reset.Finishing.{
  Finishes, resume-Finishes, Finishes-Ends, AreThere, AllDiffer, CanMove, archive_files-Finishes,
  new_archive_dir-Finishes,
}

there_paths :
    (live : Dict String File) (ps : List String) → AreThere (keep (λ p. exists p live) ps) live
unfolding keep
there_paths live [] = tt
there_paths live (p ∷ ps) = elim (Bool-cases (exists p live)) [
  | inl e ↦ rw (e, keep) ((λ gone. ground (arith, e)), there_paths live ps)
  | inr e ↦ rw (e, keep) (there_paths live ps)
]

keep-apart :
    (f : String → Bool) (x : String) (ps : List String)
    → All (λ q. x ≢ q) ps
    → All (λ q. x ≢ q) (keep f ps)
unfolding keep
keep-apart f x [] a = tt
keep-apart f x (p ∷ ps) a = elim (Bool-cases (f p)) [
  | inl e ↦ rw (e, keep) (a.0, keep-apart f x ps a.1)
  | inr e ↦ rw (e, keep) (keep-apart f x ps a.1)
]

keep-AllDiffer : (f : String → Bool) (ps : List String) → AllDiffer ps → AllDiffer (keep f ps)
unfolding keep
keep-AllDiffer f [] d = tt
keep-AllDiffer f (p ∷ ps) d = elim (Bool-cases (f p)) [
  | inl e ↦ rw (e, keep) (keep-apart f p ps d.0, keep-AllDiffer f ps d.1)
  | inr e ↦ rw (e, keep) (keep-AllDiffer f ps d.1)
]

gone-any_exists :
    (ps : List String) (live : Dict String File) → AreGone ps live → any_exists ps live ≡ false
unfolding any_exists
gone-any_exists [] live g = refl
gone-any_exists (p ∷ ps) live g = ground (arith, gone-any_exists ps live g.1, g.0)

-- Fewer effects are enough where more are allowed.
more-Finishes :
    {A : Type 0} (Q : A → World → Type 0) (k j n : ℕ) (o : Outcome A)
    → k ≤ j
    → Finishes Q k n o
    → Finishes Q j n o
more-Finishes Q k j n (done a w n') le h = (h.0, omega (arith, le, h.1))
more-Finishes Q k j n (stopped e w) le h = h

module _ (paths : List String) (few : length paths ≤ 4) (differ : AllDiffer paths) where
  abbrev present_in : Dict String File → List String
  present_in live = keep (λ p. exists p live) paths

  -- Five effects make the directory, two move each file.
  pub move_away-Finishes :
      (at : Moment) (w : World) (n : ℕ)
      → 13 ≤ n
      → Finishes
          (λ _ w'. AreGone paths w'.disk.live)
          13
          n
          (move_away at true "r26" (present_in w.disk.live) w n)
  unfolding move_away
  move_away-Finishes at w n enough =
      let live = w.disk.live in
      let there = present_in live in
      let rest = keep (λ p. not (exists p live)) paths in
      let short : length there ≤ 4 =
        omega (arith, few, length-keep-le (λ p. exists p live) paths) in
      resume-Finishes (λ dest w'. CanMove dest there w' × GoneIn rest w')
        (λ _ w'. AreGone paths w'.disk.live) 5 8 n (new_archive_dir at "r26" w n) _
        (Finishes-Ends (λ dest w'. CanMove dest there w') (λ _ w'. GoneIn rest w') (λ _. Unit) 5 n
          (new_archive_dir at "r26" w n)
          (new_archive_dir-Finishes at "r26" there w n (there_paths live paths)
            (omega (arith, enough)))
          (new_archive_dir-gone at "r26" rest w n (absent_paths live paths)))
        (λ dest w' n' c le.
          resume-Finishes (λ _ w''. Unit {0} × Clears rest there w'')
            (λ _ w''. AreGone paths w''.disk.live) 8 0 n' (archive_files dest there w' n') _
            (more-Finishes _ (length there * 2) 8 n' (archive_files dest there w' n')
              (omega (arith, short))
              (Finishes-Ends (λ _ _. Unit) (λ _ w''. Clears rest there w'') (λ _. Unit)
                (length there * 2) n' (archive_files dest there w' n')
                (archive_files-Finishes dest there w' n'
                  (keep-AllDiffer (λ p. exists p live) paths differ) c.0
                  (omega (arith, short, le, enough)))
                (archive_files-Clears dest rest there w' n' c.1)))
            (λ _ w'' n'' q le'. (both_parts live w''.disk.live paths q.1.0 q.1.1, omega arith)))

  pub check_clear-Finishes :
      (w : World) (n : ℕ)
      → AreGone paths w.disk.live
      → Finishes (λ _ _. Unit) 0 n (check_clear paths w n)
  unfolding check_clear
  check_clear-Finishes w n g =
      rw (gone-any_exists paths w.disk.live g, check_clear) (tt, omega arith)

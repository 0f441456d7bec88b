-- ===== src/Reset/Finishing.antt =====
-- Enough effects that work take the loops of src/mls_reset.rs to their end.
use pacto_bot_api.Prelude.{
  ℕ, zero, suc, ◌+◌, ◌*◌, ◌≤◌, ◌<◌, String, none, List, [], ◌∷◌, string_eq, pair_eq, nat_eq, ◌≢◌,
  subst, arith, Option-cases, inl, inr, eq_iff, All, length,
}
use pacto_bot_api.Prelude.Dict.{Dict, get, insert, remove, get-insert, get-remove}
use pacto_bot_api.Reset.Io.{
  File, ArchiveName, World, Io, Outcome, done, stopped, resume, effect, on_disk, Ends, name_beq_iff,
}
use pacto_bot_api.Reset.Moves.{
  Moment, chmod, rename_into, archive_files, with_dir, new_archive_dir, io_failure,
}
use pacto_bot_api.Reset.Upkeep.{with_mode, moved, named}

-- The run comes to its end with an answer and a world of which `Q` holds, and at most `k` of the
-- `n` effects went into it.
abbrev pub Finishes : {A : Type 0} → (A → World → Type 0) → ℕ → ℕ → Outcome A → Type 0
Finishes Q k n (done a w n') = Q a w × (n ≤ n' + k)
Finishes Q k n (stopped e w) = ⊥

weaken-Finishes :
    {A : Type 0} (Q : A → World → Type 0) (k j n n' : ℕ) (o : Outcome A)
    → Finishes Q j n' o
    → n ≤ n' + k
    → Finishes Q (k + j) n o
weaken-Finishes Q k j n n' (done a w m) h le = (h.0, omega (arith, h.1, le))
weaken-Finishes Q k j n n' (stopped e w) h le = h

pub resume-Finishes :
    {A B : Type 0} (Q : A → World → Type 0) (R : B → World → Type 0) (k j n : ℕ) (o : Outcome A)
    (f : A → Io B)
    → Finishes Q k n o
    → ((a : A) (w : World) (n' : ℕ) → Q a w → n ≤ n' + k → Finishes R j n' (f a w n'))
    → Finishes R (k + j) n (resume o f)
resume-Finishes Q R k j n (done a w n') f h next =
    weaken-Finishes R k j n n' (f a w n') (next a w n' h.0 h.1) h.1
resume-Finishes Q R k j n (stopped e w) f h next = absurd h

pub effect-Finishes :
    (failure : String) (change : World → World) (Q : Unit {0} → World → Type 0) (w : World) (n : ℕ)
    → 0 < n
    → Q tt (change w)
    → Finishes Q 1 n (effect failure change w n)
effect-Finishes failure change Q w zero pos q = absurd (omega (arith, pos))
effect-Finishes failure change Q w (suc n) pos q = (q, omega arith)

-- A run that finishes keeps what it is known to leave behind.
pub Finishes-Ends :
    {A : Type 0} (P Q : A → World → Type 0) (S : World → Type 0) (k n : ℕ) (o : Outcome A)
    → Finishes P k n o
    → Ends Q S o
    → Finishes (λ a w. P a w × Q a w) k n o
Finishes-Ends P Q S k n (done a w n') h q = ((h.0, q), h.1)
Finishes-Ends P Q S k n (stopped e w) h q = h

-- There is a file at each of the paths, and no path comes twice.
abbrev pub AreThere : List String → Dict String File → Type 0
AreThere ps live = All (λ p. get p live ≢ none) ps

abbrev pub AllDiffer : List String → Type 0
AllDiffer [] = Unit
AllDiffer (p ∷ ps) = All (λ q. p ≢ q) ps × AllDiffer ps

chmod-AreThere :
    (x : String) (f : File) (ps : List String) (live : Dict String File)
    → AreThere ps live
    → AreThere ps (insert x f live)
chmod-AreThere x f [] live a = tt
chmod-AreThere x f (p ∷ ps) live a =
    (λ e. ground (arith, get-insert x p f live, a.0), chmod-AreThere x f ps live a.1)

remove-AreThere :
    (x : String) (ps : List String) (live : Dict String File)
    → All (λ q. x ≢ q) ps
    → AreThere ps live
    → AreThere ps (remove x live)
remove-AreThere x [] live d a = tt
remove-AreThere x (p ∷ ps) live d a = (
  λ e. ground (arith, get-remove x p live, a.0, d.0, eq_iff x p),
  remove-AreThere x ps live d.1 a.1,
)

abbrev pub CanMove : ArchiveName → List String → World → Type 0
CanMove dest ps w = AreThere ps w.disk.live × (get dest w.disk.archives ≢ none)

chmod-Finishes :
    (dest : ArchiveName) (x : String) (xs : List String) (w : World) (n : ℕ)
    → CanMove dest (x ∷ xs) w
    → 0 < n
    → Finishes (λ _ w'. CanMove dest (x ∷ xs) w') 1 n (chmod 384 x w n)
unfolding chmod
chmod-Finishes dest x xs w n c pos = elim (Option-cases (get x w.disk.live)) [
  | inl e ↦ absurd (c.0.0 e)
  | inr (f, e) ↦
      rw (e, chmod)
        (effect-Finishes io_failure (with_mode 384 x f) (λ _ w'. CanMove dest (x ∷ xs) w') w n pos
          (chmod-AreThere x (record f { mode = 384 }) (x ∷ xs) w.disk.live c.0, c.1))
]

rename_into-Finishes :
    (dest : ArchiveName) (x : String) (xs : List String) (w : World) (n : ℕ)
    → All (λ q. x ≢ q) xs
    → CanMove dest (x ∷ xs) w
    → 0 < n
    → Finishes (λ _ w'. CanMove dest xs w') 1 n (rename_into dest x w n)
unfolding rename_into
rename_into-Finishes dest x xs w n d c pos = elim (Option-cases (get x w.disk.live)) [
  | inl e ↦ absurd (c.0.0 e)
  | inr (f, e) ↦ elim (Option-cases (get dest w.disk.archives)) [
    | inl e' ↦ absurd (c.1 e')
    | inr (files, e') ↦
        rw (e, e', rename_into)
          (effect-Finishes io_failure (moved dest x f files) (λ _ w'. CanMove dest xs w') w n pos
            (
              remove-AreThere x xs w.disk.live d c.0.1,
              λ gone. ground (
                arith,
                get-insert dest dest (insert x f files) w.disk.archives,
                name_beq_iff dest dest,
              ),
            ))
  ]
]

pub archive_files-Finishes :
    (dest : ArchiveName) (ps : List String) (w : World) (n : ℕ)
    → AllDiffer ps
    → CanMove dest ps w
    → length ps * 2 ≤ n
    → Finishes (λ _ _. Unit) (length ps * 2) n (archive_files dest ps w n)
unfolding archive_files
archive_files-Finishes dest [] w n d c enough = (tt, omega arith)
archive_files-Finishes dest (x ∷ xs) w n d c enough =
    subst (λ cost. Finishes (λ _ _. Unit) cost n (archive_files dest (x ∷ xs) w n)) (omega arith)
      (resume-Finishes (λ _ w'. CanMove dest (x ∷ xs) w') (λ _ _. Unit) 1 (1 + length xs * 2) n
        (chmod 384 x w n) _ (chmod-Finishes dest x xs w n c (omega (arith, enough)))
        (λ _ w' n' c' le.
          resume-Finishes (λ _ w''. CanMove dest xs w'') (λ _ _. Unit) 1 (length xs * 2) n'
            (rename_into dest x w' n') _
            (rename_into-Finishes dest x xs w' n' d.0 c' (omega (arith, enough, le)))
            (λ _ w'' n'' c'' le'.
              archive_files-Finishes dest xs w'' n'' d.1 c'' (omega (arith, enough, le, le')))))

with_dir-CanMove :
    (name : ArchiveName) (ps : List String) (w : World)
    → AreThere ps w.disk.live
    → CanMove name ps (on_disk (with_dir name) w)
with_dir-CanMove name ps w there = elim (Option-cases (get name w.disk.archives)) [
  | inl e ↦
      rw (e, with_dir)
        (
          there,
          λ gone. ground (arith, get-insert name name [] w.disk.archives, name_beq_iff name name),
        )
  | inr (files, e) ↦ rw (e, with_dir) (there, λ gone. cc (gone, e))
]

pub new_archive_dir-Finishes :
    (at : Moment) (kind : String) (ps : List String) (w : World) (n : ℕ)
    → AreThere ps w.disk.live
    → 5 ≤ n
    → Finishes (λ dest w'. CanMove dest ps w') 5 n (new_archive_dir at kind w n)
unfolding new_archive_dir
new_archive_dir-Finishes at kind ps w zero there enough = absurd (omega (arith, enough))
new_archive_dir-Finishes at kind ps w (suc zero) there enough = absurd (omega (arith, enough))
new_archive_dir-Finishes at kind ps w (suc (suc zero)) there enough = absurd (omega (arith, enough))
new_archive_dir-Finishes at kind ps w (suc (suc (suc zero))) there enough =
    absurd (omega (arith, enough))
new_archive_dir-Finishes at kind ps w (suc (suc (suc (suc zero)))) there enough =
    absurd (omega (arith, enough))
new_archive_dir-Finishes at kind ps w (suc (suc (suc (suc (suc n))))) there enough =
    (with_dir-CanMove (named at kind) ps w there, omega arith)

-- ===== src/Dispatch/Rules.antt =====
-- Rules for the monad of src/dispatch.rs: what a method needs to come back, and what holds of the
-- state when it may have stopped at a step.
use pacto_bot_api.Prelude.{◌≡◌, refl, ◌∙◌}
use pacto_bot_api.Errors.{Result, ok, err}
use pacto_bot_api.Dispatch.State.{Dispatch, Exec, continue, lift}

-- A method that came back did so at each step.
pub continue-eq-ok :
    {A B : Type 0} (out : Dispatch × Result A) (rest : A → Exec B) {s' : Dispatch} {b : B}
    → continue out rest ≡ (s', ok b)
    → (s1 : Dispatch) × (a : A) × (out ≡ (s1, ok a)) × (rest a s1 ≡ (s', ok b))
continue-eq-ok (s1, ok a) rest h = (s1, a, refl, h)
continue-eq-ok (s1, err e) rest h = cc

-- What holds of the state before a check, and of the state after the rest when the check passes,
-- holds in the end.
pub after_lift :
    {A B : Type 0} (P : Dispatch → Type 0) (r : Result A) (rest : A → Exec B) (s : Dispatch)
    → P s
    → ((a : A) → r ≡ ok a → P (rest a s).0)
    → P (continue (lift r s) rest).0
after_lift P (ok a) rest s p next = next a refl
after_lift P (err e) rest s p next = p

-- A part of the state that each step leaves alone is left alone by the whole.
pub keeps_part :
    {A B X : Type 0} (part : Dispatch → X) (out : Dispatch × Result A) (rest : A → Exec B) {x : X}
    → part out.0 ≡ x
    → ((a : A) (s : Dispatch) → part (rest a s).0 ≡ part s)
    → part (continue out rest).0 ≡ x
keeps_part part (s, ok a) rest kept next = next a s ∙ kept
keeps_part part (s, err e) rest kept next = kept

-- ===== src/MlsGroups/Waiting.antt =====
-- The blocks of src/dispatch.rs that run under one overall `timeout`: a step that is cut off ends
-- the block, whether or not it was done.
use pacto_bot_api.Errors.{DaemonError, Result, ok, err, operation_timed_out}
use pacto_bot_api.MlsGroups.State.{World, Act, Pace, in_time, cut_done, cut_undone}

pub data Timed (A : Type 0) : Type 0 where
  came : A → Timed A
  failed : DaemonError → Timed A
  expired : Timed A

abbrev pub Wait : Type 0 → Type 0 → Type 0
Wait S A = World S → World S × Timed A

abbrev pub go_on : {S A B : Type 0} → World S × Timed A → (A → Wait S B) → World S × Timed B
go_on (w, came a) rest = rest a w
go_on (w, failed e) rest = (w, failed e)
go_on (w, expired) rest = (w, expired)

infixl 5 ◌>>=◌ ◌>>◌
abbrev pub ◌>>=◌ : {S A B : Type 0} → Wait S A → (A → Wait S B) → Wait S B
◌>>=◌ step rest w = go_on (step w) rest

abbrev pub ◌>>◌ : {S B : Type 0} → Wait S (Unit {0}) → Wait S B → Wait S B
◌>>◌ step rest w = go_on (step w) (λ _. rest)

abbrev pub done : {S A : Type 0} → A → Wait S A
done a w = (w, came a)

abbrev pub fail : {S A : Type 0} → DaemonError → Wait S A
fail e w = (w, failed e)

abbrev pub in_block : {S A : Type 0} → World S × Result A → World S × Timed A
in_block (w, ok a) = (w, came a)
in_block (w, err e) = (w, failed e)

-- An awaited step.
abbrev pub await : {S A : Type 0} → Pace → Act S A → Wait S A
await in_time step w = in_block (step w)
await cut_done step w = ((step w).0, expired)
await cut_undone step w = (w, expired)

-- `let _ = step.await`
abbrev pub ignoring : {S A : Type 0} → World S × Timed A → World S × Timed (Unit {0})
ignoring (w, came _) = (w, came tt)
ignoring (w, failed _) = (w, came tt)
ignoring (w, expired) = (w, expired)

-- The three arms of the `match` on what `timeout` gave.
abbrev pub timeout : {S A : Type 0} → World S × Timed A → World S × Result A
timeout (w, came a) = (w, ok a)
timeout (w, failed e) = (w, err e)
timeout (w, expired) = (w, err operation_timed_out)

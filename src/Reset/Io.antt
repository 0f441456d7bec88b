-- ===== src/Reset/Io.antt =====
-- The effects of src/mls_reset.rs on `agent.db` and on the files beside the store. Every effect may
-- fail: a run has a number of effects that work, and the next one stops it with an error. A crash of
-- the daemon leaves the same world as such an error, since `?` passes it on at once.
use pacto_bot_api.Prelude.{
  ℕ, zero, suc, String, Bool, List, Option, none, some, ◌==◌, ◌≡◌, ◌↔◌, true, pair_beq_iff, nat_eq,
  pair_eq, string_eq,
}
use pacto_bot_api.Prelude.Dict.{Dict}
use pacto_bot_api.Errors.{MlsError, engine}
use pacto_bot_api.Db.Tables.{Tables}

-- A file: its bytes, its permission bits, and whether the daemon can read it.
pub record File : Type 0 where
  pub bytes : List ℕ
  pub mode : ℕ
  pub readable : Bool

-- An archive directory `{stamp}-{suffix}-{kind}`; a file in it keeps the name that it had beside
-- the store, so it stands under the path from which it came.
abbrev pub ArchiveName : Type 0
ArchiveName = ℕ × (String × String)

pub name_beq_iff : (a b : ArchiveName) → (a == b ≡ true) ↔ (a ≡ b)
name_beq_iff a b = pair_beq_iff nat_eq pair_eq a b

pub record Disk : Type 0 where
  pub live : Dict String File
  pub archives : Dict ArchiveName (Dict String File)

pub record World : Type 0 where
  pub db : Tables
  pub disk : Disk

pub data Outcome (A : Type 0) : Type 0 where
  done : A → World → ℕ → Outcome A
  stopped : MlsError → World → Outcome A

abbrev pub Io : Type 0 → Type 0
Io A = World → ℕ → Outcome A

abbrev pub resume : {A B : Type 0} → Outcome A → (A → Io B) → Outcome B
resume (done a w n) k = k a w n
resume (stopped e w) k = stopped e w

infixl 5 ◌>>=◌ ◌>>◌
abbrev pub ◌>>=◌ : {A B : Type 0} → Io A → (A → Io B) → Io B
m >>= k = λ w n. resume (m w n) k

abbrev pub ◌>>◌ : {B : Type 0} → Io (Unit {0}) → Io B → Io B
m >> k = λ w n. resume (m w n) (λ _. k)

abbrev pub answer : {A : Type 0} → A → Io A
answer a w n = done a w n

abbrev pub fail : {A : Type 0} → String → Io A
fail message w n = stopped (engine message) w

-- What the code reads, which changes nothing.
abbrev pub look : {A : Type 0} → (World → A) → Io A
look read w n = done (read w) w n

-- `map_err`
abbrev pub ok_or_fail : {A : Type 0} → Option A → String → Io A
ok_or_fail (some a) message = answer a
ok_or_fail none message = fail message

-- `reset_io_err` and `db_err`, with the number of effects that still work.
abbrev pub effect : String → (World → World) → Io (Unit {0})
effect failure change w zero = stopped (engine failure) w
effect failure change w (suc n) = done tt (change w) n

abbrev pub on_disk : (Disk → Disk) → World → World
on_disk f w = record w { disk = f w.disk }

abbrev pub on_db : (Tables → Tables) → World → World
on_db f w = record w { db = f w.db }

-- What holds however a run ends: `Q` of the answer and the world, or `S` of the world where it stopped.
abbrev pub Ends : {A : Type 0} → (A → World → Type 0) → (World → Type 0) → Outcome A → Type 0
Ends Q S (done a w n) = Q a w
Ends Q S (stopped e w) = S w

pub resume-Ends :
    {A B : Type 0} (Q : A → World → Type 0) (R : B → World → Type 0) (S : World → Type 0)
    (o : Outcome A) (k : A → Io B)
    → Ends Q S o
    → ((a : A) (w : World) (n : ℕ) → Q a w → Ends R S (k a w n))
    → Ends R S (resume o k)
resume-Ends Q R S (done a w n) k h next = next a w n h
resume-Ends Q R S (stopped e w) k h next = h

pub effect-Ends :
    (failure : String) (change : World → World) (Q : Unit {0} → World → Type 0) (S : World → Type 0)
    (w : World) (n : ℕ)
    → S w
    → Q tt (change w)
    → Ends Q S (effect failure change w n)
effect-Ends failure change Q S w zero s q = s
effect-Ends failure change Q S w (suc n) s q = q

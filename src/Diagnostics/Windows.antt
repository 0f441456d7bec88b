-- ===== src/Diagnostics/Windows.antt =====
-- `RecentBuckets` of src/diagnostics.rs against the history of events that it stands for.
use pacto_bot_api.Prelude.{
  ℕ, zero, suc, ◌+◌, ◌-◌, ◌%◌, ◌≤◌, ◌<◌, ◌≡◌, refl, ◌&&◌, List, [], ◌∷◌, leb, ltb, nat_beq,
  if◌then◌else◌, length, All, arith, subst, Bool-cases, ◌∙◌, inl, inr,
}
use pacto_bot_api.Diagnostics.Buckets.{
  RecentBuckets, replicate, set, bucket, new_buckets, zero_from, roll, record_event,
}

-- How many events of a history fell on minute `m`.
unfoldable pub events_at : ℕ → List ℕ → ℕ
events_at m [] = 0
events_at m (x ∷ xs) = (if nat_beq x m then 1 else 0) + events_at m xs

-- How many fell on the minutes from `from` to `to`.
unfoldable pub events_within : ℕ → ℕ → List ℕ → ℕ
events_within from to [] = 0
events_within from to (x ∷ xs) =
    (if leb from x && leb x to then 1 else 0) + events_within from to xs

-- A history, its last event first: no event is earlier than one before it.
abbrev pub IsOrdered : List ℕ → Type 0
IsOrdered [] = Unit
IsOrdered (m ∷ ms) = All (λ x. x ≤ m) ms × IsOrdered ms

-- The buckets after a history.
unfoldable pub replay : List ℕ → RecentBuckets
unfolding new_buckets record_event
replay [] = new_buckets 60
replay (m ∷ ms) = record_event m (replay ms)

bucket-set :
    (bs : List ℕ) (i v j : ℕ)
    → i < length bs
    → bucket (set bs i v) j ≡ (if nat_beq i j then v else bucket bs j)
unfolding bucket set
bucket-set [] i v j h = absurd (omega arith)
bucket-set (x ∷ xs) zero v zero h = refl
bucket-set (x ∷ xs) zero v (suc j) h = ground arith
bucket-set (x ∷ xs) (suc i) v zero h = ground arith
bucket-set (x ∷ xs) (suc i) v (suc j) h = ground (arith, bucket-set xs i v j)

length-set : (bs : List ℕ) (i v : ℕ) → length (set bs i v) ≡ length bs
unfolding set
length-set [] i v = refl
length-set (x ∷ xs) zero v = refl
length-set (x ∷ xs) (suc i) v = omega (arith, length-set xs i v)

bucket-replicate : (n j : ℕ) → bucket (replicate n 0) j ≡ 0
unfolding bucket
bucket-replicate zero j = refl
bucket-replicate (suc n) zero = refl
bucket-replicate (suc n) (suc j) = bucket-replicate n j

length-replicate : (n v : ℕ) → length (replicate n v) ≡ n
length-replicate zero v = refl
length-replicate (suc n) v = omega (arith, length-replicate n v)

events_at-later : (m n : ℕ) (h : List ℕ) → All (λ x. x ≤ n) h → n < m → events_at m h ≡ 0
unfolding events_at
events_at-later m n [] a lt = refl
events_at-later m n (x ∷ xs) a lt = ground (arith, events_at-later m n xs)

-- How long before minute `cur` bucket `j` was last the current one, and what it should hold.
abbrev pub age : ℕ → ℕ → ℕ
age cur j = (cur % 60 + 60 - j) % 60

abbrev pub expected : ℕ → List ℕ → ℕ → ℕ
expected cur h j = if leb (age cur j) cur then events_at (cur - age cur j) h else 0

pub record Holds (cur : ℕ) (h : List ℕ) (bs : List ℕ) : Type 0 where
  pub sized : length bs ≡ 60
  pub past : All (λ x. x ≤ cur) h
  pub filled : (j : ℕ) → j < 60 → bucket bs j ≡ expected cur h j

All-le : (n m : ℕ) (h : List ℕ) → n ≤ m → All (λ x. x ≤ n) h → All (λ x. x ≤ m) h
All-le n m [] le a = tt
All-le n m (x ∷ xs) le a = (omega arith, All-le n m xs le a.1)

-- One minute passes with no event.
advance : (cur : ℕ) (h bs : List ℕ) → Holds cur h bs → Holds (cur + 1) h (set bs ((cur + 1) % 60) 0)
advance cur h bs o = record {
  sized = length-set bs ((cur + 1) % 60) 0 ∙ o.sized;
  past = All-le cur (cur + 1) h (omega arith) o.past;
  filled = λ j lt. ground (
    arith,
    bucket-set bs ((cur + 1) % 60) 0 j,
    o.sized,
    o.filled j lt,
    events_at-later (cur + 1) cur h o.past,
  );
}

zero_from-Holds :
    (n cur : ℕ) (h bs : List ℕ) → Holds cur h bs → Holds (cur + n) h (zero_from 60 cur n bs)
unfolding zero_from
zero_from-Holds zero cur h bs o = subst (λ c. Holds c h bs) (omega arith) o
zero_from-Holds (suc n) cur h bs o =
    subst (λ c. Holds c h (zero_from 60 (cur + 1) n (set bs ((cur + 1) % 60) 0))) (omega arith)
      (zero_from-Holds n (cur + 1) h (set bs ((cur + 1) % 60) 0) (advance cur h bs o))

-- More than an hour later nothing of the history is left in the buckets.
reset-Holds :
    (cur minute : ℕ) (h : List ℕ)
    → All (λ x. x ≤ cur) h
    → cur + 60 ≤ minute
    → Holds minute h (replicate 60 0)
reset-Holds cur minute h a le = record {
  sized = length-replicate 60 0;
  past = All-le cur minute h (omega arith) a;
  filled = λ j lt.
      ground (arith, bucket-replicate 60 j, events_at-later (minute - age minute j) cur h a);
}

-- What `roll` leaves: buckets that are up to the minute.
pub record Follows (h : List ℕ) (r : RecentBuckets) : Type 0 where
  pub hour : r.capacity ≡ 60
  pub held : Holds r.current_minute h r.buckets

roll-Follows :
    (minute : ℕ) (h : List ℕ) (r : RecentBuckets)
    → r.current_minute ≤ minute
    → Follows h r
    → Follows h (roll minute r) × ((roll minute r).current_minute ≡ minute)
unfolding roll
roll-Follows minute h r le f = elim (Bool-cases (leb (r.current_minute + r.capacity) minute)) [
  | inl far ↦
      rw (far, f.hour)
        (
          record {
            hour = refl;
            held = reset-Holds r.current_minute minute h f.held.past (ground (arith, f.hour));
          },
          refl,
        )
  | inr near ↦ elim (Bool-cases (ltb r.current_minute minute)) [
    | inl later ↦
        rw (near, later, f.hour)
          (
            record {
              hour = refl;
              held =
                  subst
                    (λ c.
                      Holds c h
                        (zero_from 60 r.current_minute (minute - r.current_minute) r.buckets))
                    (omega arith)
                    (zero_from-Holds (minute - r.current_minute) r.current_minute h r.buckets
                      f.held);
            },
            refl,
          )
    | inr same ↦ rw (near, same) (f, ground arith)
  ]
]

-- An event of the current minute goes into the current bucket.
bump-Holds :
    (m : ℕ) (h bs : List ℕ)
    → Holds m h bs
    → Holds m (m ∷ h) (set bs (m % 60) (bucket bs (m % 60) + 1))
unfolding events_at
bump-Holds m h bs o = record {
  sized = length-set bs (m % 60) (bucket bs (m % 60) + 1) ∙ o.sized;
  past = (omega arith, o.past);
  filled = λ j lt. ground (
    arith,
    bucket-set bs (m % 60) (bucket bs (m % 60) + 1) j,
    o.sized,
    o.filled j lt,
    o.filled (m % 60) (omega arith),
  );
}

record_event-Follows :
    (m : ℕ) (h : List ℕ) (r : RecentBuckets)
    → r.current_minute ≤ m
    → Follows h r
    → Follows (m ∷ h) (record_event m r) × ((record_event m r).current_minute ≡ m)
unfolding record_event
record_event-Follows m h r le f =
    let (g, now) = roll-Follows m h r le f in
    (
      record {
        hour = g.hour;
        held =
            rw (now, g.hour)
              (bump-Holds m h (roll m r).buckets
                (subst (λ c. Holds c h (roll m r).buckets) now g.held));
      },
      now,
    )

new-Follows : Follows [] (new_buckets 60)
unfolding new_buckets events_at
new-Follows = record {
  hour = refl;
  held = record {
    sized = length-replicate 60 0;
    past = tt;
    filled = λ j lt. ground (arith, bucket-replicate 60 j);
  };
}

abbrev pub last_minute : List ℕ → ℕ
last_minute [] = 0
last_minute (m ∷ ms) = m

last_minute-le : (m : ℕ) (h : List ℕ) → All (λ x. x ≤ m) h → last_minute h ≤ m
last_minute-le m [] a = omega arith
last_minute-le m (x ∷ xs) a = a.0

pub replay-Follows :
    (h : List ℕ) → IsOrdered h → Follows h (replay h) × ((replay h).current_minute ≡ last_minute h)
unfolding replay new_buckets
replay-Follows [] o = (new-Follows, refl)
replay-Follows (m ∷ ms) o =
    let (f, now) = replay-Follows ms o.1 in
    record_event-Follows m ms (replay ms) (omega (arith, now, last_minute-le m ms o.0)) f

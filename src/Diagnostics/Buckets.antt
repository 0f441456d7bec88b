-- ===== src/Diagnostics/Buckets.antt =====
-- `RecentBuckets` of src/diagnostics.rs. `minute` is `start.elapsed().as_secs() / 60`; the sums are
-- exact, as a `u64` of events is in practice.
use pacto_bot_api.Prelude.{
  ℕ, zero, suc, ◌+◌, ◌-◌, ◌%◌, Bool, ◌&&◌, List, [], ◌∷◌, leb, ltb, nat_beq, if◌then◌else◌,
}

pub record RecentBuckets : Type 0 where
  pub buckets : List ℕ
  pub current_minute : ℕ
  pub capacity : ℕ

abbrev pub replicate : ℕ → ℕ → List ℕ
replicate zero v = []
replicate (suc n) v = v ∷ replicate n v

-- `buckets[i] = v`
unfoldable pub set : List ℕ → ℕ → ℕ → List ℕ
set [] i v = []
set (x ∷ xs) zero v = v ∷ xs
set (x ∷ xs) (suc i) v = x ∷ set xs i v

-- `buckets[i]`, which the callers keep in range.
unfoldable pub bucket : List ℕ → ℕ → ℕ
bucket [] i = 0
bucket (x ∷ xs) zero = x
bucket (x ∷ xs) (suc i) = bucket xs i

-- `RecentBuckets::new`
unfoldable pub new_buckets : ℕ → RecentBuckets
new_buckets capacity = record {
  buckets = replicate capacity 0;
  current_minute = 0;
  capacity = capacity;
}

-- The loop `for m in (from + 1)..=(from + n)`, which zeroes one bucket for each minute.
unfoldable pub zero_from : ℕ → ℕ → ℕ → List ℕ → List ℕ
unfolding set
zero_from capacity from zero bs = bs
zero_from capacity from (suc n) bs =
    zero_from capacity (from + 1) n (set bs ((from + 1) % capacity) 0)

-- The `if` at the start of `record`, which brings the buckets up to the minute.
unfoldable pub roll : ℕ → RecentBuckets → RecentBuckets
unfolding zero_from
roll minute r =
    if leb (r.current_minute + r.capacity) minute
    then record r { buckets = replicate r.capacity 0; current_minute = minute }
    else if ltb r.current_minute minute
    then record r {
      buckets = zero_from r.capacity r.current_minute (minute - r.current_minute) r.buckets;
      current_minute = minute;
    }
    else r

abbrev bump_current : RecentBuckets → RecentBuckets
bump_current r = record r {
  buckets =
      set r.buckets (r.current_minute % r.capacity)
        (bucket r.buckets (r.current_minute % r.capacity) + 1);
}

-- `RecentBuckets::record`
unfoldable pub record_event : ℕ → RecentBuckets → RecentBuckets
unfolding roll set bucket
record_event minute r = bump_current (roll minute r)

-- `offset` of the closure in `count_last_n_minutes`: how many minutes before the last write.
unfoldable pub offset_of : RecentBuckets → ℕ → ℕ
offset_of r idx = (r.current_minute % r.capacity + r.capacity - idx) % r.capacity

-- Is the bucket's minute in the window? The source compares `i64`s, where the bucket's minute
-- `current_minute - offset` may be negative; here the offset stands on the other side.
unfoldable pub in_window : RecentBuckets → ℕ → ℕ → ℕ → Bool
unfolding offset_of
in_window r window_start current idx =
    leb (window_start + offset_of r idx) r.current_minute
    && leb r.current_minute (current + offset_of r idx)

-- `buckets.iter().enumerate().filter_map(..).sum()`, from index `i` on.
unfoldable pub sum_window : (ℕ → Bool) → ℕ → List ℕ → ℕ
sum_window within i [] = 0
sum_window within i (x ∷ xs) =
    let rest = sum_window within (i + 1) xs in if within i then x + rest else rest

-- `RecentBuckets::count_last_n_minutes` at minute `current`
unfoldable pub count_last_n_minutes : ℕ → ℕ → RecentBuckets → ℕ
unfolding in_window sum_window
count_last_n_minutes n current r =
    if nat_beq n 0
    then 0
    else if leb (r.current_minute + r.capacity) current
    then 0
    else sum_window (in_window r (current - (n - 1)) current) 0 r.buckets

-- ===== src/Diagnostics/Totals.antt =====
-- Sums over the buckets of src/diagnostics.rs, and the count of the last minutes.
use pacto_bot_api.Prelude.{
  ℕ, zero, suc, ◌+◌, ◌-◌, ◌%◌, ◌≤◌, ◌<◌, ◌≡◌, refl, Bool, ◌&&◌, List, [], ◌∷◌, leb, nat_beq,
  if◌then◌else◌, length, All, arith, Bool-cases, ◌∙◌, inl, inr, ap,
}
use pacto_bot_api.Diagnostics.Buckets.{
  RecentBuckets, bucket, offset_of, in_window, sum_window, count_last_n_minutes,
}
use pacto_bot_api.Diagnostics.Windows.{
  events_at, events_within, IsOrdered, replay, Follows, replay-Follows, expected, last_minute,
}

-- `f 0 + .. + f (k - 1)`
sum_below : ℕ → (ℕ → ℕ) → ℕ
sum_below zero f = 0
sum_below (suc k) f = sum_below k f + f k

sum_below-add : (k : ℕ) (f g : ℕ → ℕ) → sum_below k (λ j. f j + g j) ≡ sum_below k f + sum_below k g
unfolding sum_below
sum_below-add zero f g = omega arith
sum_below-add (suc k) f g = omega (arith, sum_below-add k f g)

sum_below-ext :
    (k : ℕ) (f g : ℕ → ℕ) → ((j : ℕ) → j < k → f j ≡ g j) → sum_below k f ≡ sum_below k g
unfolding sum_below
sum_below-ext zero f g e = refl
sum_below-ext (suc k) f g e =
    omega (arith, sum_below-ext k f g (λ j lt. e j (omega arith)), e k (omega arith))

sum_below-zero : (k : ℕ) → sum_below k (λ j. 0) ≡ 0
unfolding sum_below
sum_below-zero zero = refl
sum_below-zero (suc k) = omega (arith, sum_below-zero k)

-- One term only.
sum_below-single :
    (k i v : ℕ) → sum_below k (λ j. if nat_beq j i then v else 0) ≡ (if leb k i then 0 else v)
unfolding sum_below
sum_below-single zero i v = ground arith
sum_below-single (suc k) i v = ground (arith, sum_below-single k i v)

-- The first term by itself.
sum_below-first : (k : ℕ) (f : ℕ → ℕ) → sum_below (suc k) f ≡ f 0 + sum_below k (λ j. f (suc j))
unfolding sum_below
sum_below-first zero f = omega arith
sum_below-first (suc k) f = omega (arith, sum_below-first k f)

sum_window-eq-sum_below :
    (within : ℕ → Bool) (i : ℕ) (bs : List ℕ)
    → sum_window within i bs
      ≡ sum_below (length bs) (λ j. if within (i + j) then bucket bs j else 0)
unfolding sum_window sum_below bucket
sum_window-eq-sum_below within i [] = refl
sum_window-eq-sum_below within i (x ∷ xs) =
    let term = λ (j : ℕ). if within (i + j) then bucket (x ∷ xs) j else 0 in
    let shifted =
      sum_below-ext (length xs) (λ j. if within (i + 1 + j) then bucket xs j else 0)
        (λ j. term (suc j)) (λ j lt. ap (λ k. if within k then bucket xs j else 0) (omega arith)) in
    let here : (if within (i + 0) then x else 0) ≡ (if within i then x else 0) =
      ap (λ k. if within k then x else 0) (omega arith) in
    ground (
      arith,
      sum_window-eq-sum_below within (i + 1) xs,
      shifted,
      sum_below-first (length xs) term,
      here,
    )

-- What one event adds to a bucket's share of the window.
abbrev share : RecentBuckets → ℕ → ℕ → List ℕ → ℕ → ℕ
share r from current h j = if in_window r from current j then expected r.current_minute h j else 0

module _ (r : RecentBuckets) (from current : ℕ) (hour : r.capacity ≡ 60)
    (seen : r.current_minute ≤ current) (recent : r.current_minute < from + 60) where
  share-cons :
      (m : ℕ) (h : List ℕ) (j : ℕ)
      → m ≤ r.current_minute
      → j < 60
      → share r from current (m ∷ h) j
        ≡ (if nat_beq j (m % 60) then (if leb from m && leb m current then 1 else 0) else 0)
          + share r from current h j
  unfolding in_window offset_of events_at
  share-cons m h j le lt = rw hour (ground arith)

  total-share :
      (h : List ℕ)
      → All (λ x. x ≤ r.current_minute) h
      → sum_below 60 (share r from current h) ≡ events_within from current h
  unfolding events_within events_at in_window
  total-share [] a =
      sum_below-ext 60 (share r from current []) (λ j. 0) (λ j lt. ground arith) ∙ sum_below-zero 60
  total-share (m ∷ h) a =
      let v : ℕ = if leb from m && leb m current then 1 else 0 in
      let one = λ (j : ℕ). if nat_beq j (m % 60) then v else 0 in
      sum_below-ext 60 (share r from current (m ∷ h)) (λ j. one j + share r from current h j)
        (λ j lt. share-cons m h j a.0 lt)
      ∙ sum_below-add 60 one (share r from current h)
      ∙ ground (arith, sum_below-single 60 (m % 60) v, total-share h a.1)

events_within-before :
    (from to c : ℕ) (h : List ℕ) → All (λ x. x ≤ c) h → c < from → events_within from to h ≡ 0
unfolding events_within
events_within-before from to c [] a lt = refl
events_within-before from to c (x ∷ xs) a lt = ground (arith, events_within-before from to c xs)

-- The buckets in the window add up to the events in it.
window_total :
    (r : RecentBuckets) (h : List ℕ) (from current : ℕ)
    → Follows h r
    → r.current_minute ≤ current
    → r.current_minute < from + 60
    → sum_window (in_window r from current) 0 r.buckets ≡ events_within from current h
window_total r h from current f seen recent =
    sum_window-eq-sum_below (in_window r from current) 0 r.buckets
    ∙ ap
        (λ k. sum_below k (λ j. if in_window r from current (0 + j) then bucket r.buckets j else 0))
        f.held.sized
    ∙ sum_below-ext 60 (λ j. if in_window r from current (0 + j) then bucket r.buckets j else 0)
        (share r from current h)
        (λ j lt.
          ap (λ k. if in_window r from current k then bucket r.buckets j else 0) (omega arith)
          ∙ ap (λ v. if in_window r from current j then v else 0) (f.held.filled j lt))
    ∙ total-share r from current f.hour seen recent h f.held.past

-- After any history of events, each minute at which one is recorded at or after the one before,
-- `count_last_n_minutes` for up to an hour, asked at or after the last event, is the number of
-- events of the history in those minutes: nothing that the ring of buckets forgot or mixed up.
pub count_last_n_minutes_refines :
    (h : List ℕ) (n current : ℕ)
    → IsOrdered h
    → last_minute h ≤ current
    → 0 < n
    → n ≤ 60
    → count_last_n_minutes n current (replay h) ≡ events_within (current - (n - 1)) current h
unfolding count_last_n_minutes
count_last_n_minutes_refines h n current ordered seen pos le =
    let r = replay h in
    let from = current - (n - 1) in
    let (f, now) = replay-Follows h ordered in
    elim (Bool-cases (leb (r.current_minute + r.capacity) current)) [
      | inl long ↦
          rw long (
            ground
              (arith, events_within-before from current r.current_minute h f.held.past, f.hour))
      | inr near ↦ rw near (ground (arith, f.hour, window_total r h from current f))
    ]

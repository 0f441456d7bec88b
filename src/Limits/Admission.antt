-- ===== src/Limits/Admission.antt =====
-- How much one token bucket of src/dispatch.rs admits.
use pacto_bot_api.Prelude.{
  ℕ, suc, ◌+◌, ◌-◌, ◌*◌, ◌≤◌, ◌<◌, true, false, List, [], ◌∷◌, ◌≡◌, refl, ◌∙◌, arith, if◌then◌else◌,
}
use pacto_bot_api.Limits.{Bucket, check_bucket, one_token}

-- The bucket after checks at the given times, and how many of them were allowed.
unfoldable pub run_checks : Bucket → List ℕ → Bucket × ℕ
unfolding check_bucket
run_checks b [] = (b, 0)
run_checks b (now ∷ times) =
    let (b', allowed) = check_bucket now b in
    let (b'', admitted) = run_checks b' times in (b'', if allowed then suc admitted else admitted)

-- The times do not go back, from a first one on.
abbrev pub Ascending : ℕ → List ℕ → Type 0
Ascending t [] = Unit
Ascending t (now ∷ times) = (t ≤ now) × Ascending now times

-- The last of the times, or the given one.
abbrev pub last_of : ℕ → List ℕ → ℕ
last_of t [] = t
last_of t (now ∷ times) = last_of now times

check_bucket_balance :
    (now : ℕ) (b : Bucket)
    → let (b', allowed) = check_bucket now b in
      (b'.tokens + (if allowed then one_token else 0)
        ≤ b.tokens + (now - b.last_replenished) * b.rate)
      × (b'.tokens ≤ b.burst)
      × (b'.last_replenished ≡ now)
      × (b'.rate ≡ b.rate)
      × (b'.burst ≡ b.burst)
unfolding check_bucket
check_bucket_balance now b = ground arith

span : (l n e r : ℕ) → l ≤ n → n ≤ e → (n - l) * r + (e - n) * r ≡ (e - l) * r
span l n e r h k = let d : e - l ≡ (n - l) + (e - n) = omega arith in rw d (omega arith)

last_of-le : (t : ℕ) (times : List ℕ) → Ascending t times → t ≤ last_of t times
last_of-le t [] h = omega arith
last_of-le t (now ∷ times) h = omega (arith, last_of-le now times h.1)

run_checks_balance :
    (b : Bucket) (times : List ℕ) (t r : ℕ)
    → b.last_replenished ≡ t
    → b.rate ≡ r
    → Ascending t times
    → (run_checks b times).1 * one_token + (run_checks b times).0.tokens
      ≤ b.tokens + (last_of t times - t) * r
unfolding run_checks
run_checks_balance b [] t r e f h = omega arith
run_checks_balance b (now ∷ times) t r e f h =
    let (spent, _, at_now, same_rate, _) = check_bucket_balance now b in
    let ih = run_checks_balance (check_bucket now b).0 times now r at_now (same_rate ∙ f) h.1 in
    let split = span t now (last_of now times) r h.0 (last_of-le now times h.1) in
    let spent' = rw (e, f) at spent in ground (arith, ih, split, spent')

run_checks_keeps :
    (b : Bucket) (times : List ℕ)
    → b.tokens ≤ b.burst
    → let b' = (run_checks b times).0 in
      (b'.tokens ≤ b'.burst) × (b'.burst ≡ b.burst) × (b'.rate ≡ b.rate)
unfolding run_checks
run_checks_keeps b [] full = (full, refl, refl)
run_checks_keeps b (now ∷ times) full =
    ground (arith, check_bucket_balance now b, run_checks_keeps (check_bucket now b).0 times)

-- Over any stretch of checks in the order of time, whatever checks came before it, a bucket admits
-- at most its burst and what its rate gives for the time from the check before the stretch to the
-- last one in it.
pub admission_bound :
    (b : Bucket) (before times : List ℕ)
    → b.tokens ≤ b.burst
    → let start = (run_checks b before).0 in
      Ascending start.last_replenished times
      → (run_checks start times).1 * one_token
        ≤ b.burst + (last_of start.last_replenished times - start.last_replenished) * b.rate
admission_bound b before times full h =
    let start = (run_checks b before).0 in
    let (capped, same_burst, same_rate) = run_checks_keeps b before full in
    omega (
      arith,
      run_checks_balance start times start.last_replenished b.rate refl same_rate h,
      capped,
      same_burst,
    )

-- A bucket that can hold a token admits the first check after a token's time without one.
pub admits_after_wait :
    (now : ℕ) (b : Bucket)
    → one_token ≤ b.burst
    → one_token ≤ (now - b.last_replenished) * b.rate
    → (check_bucket now b).1 ≡ true
unfolding check_bucket
admits_after_wait now b room waited = ground arith

no_token : (now : ℕ) (b : Bucket) → b.burst < one_token → (check_bucket now b).1 ≡ false
unfolding check_bucket
no_token now b small = ground arith

-- A bucket whose burst is less than a token admits nothing, ever.
pub small_burst_admits_none :
    (b : Bucket) (times : List ℕ) → b.burst < one_token → (run_checks b times).1 ≡ 0
unfolding run_checks
small_burst_admits_none b [] small = refl
small_burst_admits_none b (now ∷ times) small = ground (
  arith,
  no_token now b small,
  check_bucket_balance now b,
  small_burst_admits_none (check_bucket now b).0 times,
)

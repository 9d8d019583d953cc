-- ===== src/Merged/FeeWindow.antt =====
-- bridge-src/bridge/src/merged.rs, `is_pool_fee_minute`: the minutes of each hour in which a lane
-- mines for the pool. The number of minutes is an argument, which the source fixes to 1. A `u64`
-- is a number below `2 ^ 64`, and its wrapping operations are written out.
use solo_dual_mode.Prelude.{
  ℕ, zero, suc, ◌+◌, ◌*◌, ◌/◌, ◌%◌, ◌^◌, ◌≤◌, ◌<◌, ◌≡◌, refl, Bool, true, false, ◌||◌, inl, inr,
  arith, ◌==◌, ltb, if◌then◌else◌, Bool-cases,
}
use Prim.Native.Nat.{bit_xor}

abbrev pub pool_fee_minutes_per_hour : ℕ
pool_fee_minutes_per_hour = 1

-- The splitmix64 finalizer.
unfoldable pub mix : ℕ → ℕ
mix lane_id =
    let z₀ = (lane_id + 11400714819323198485) % 2 ^ 64 in
    let z₁ = (bit_xor z₀ (z₀ / 2 ^ 30) * 13787848793156543929) % 2 ^ 64 in
    let z₂ = (bit_xor z₁ (z₁ / 2 ^ 27) * 10723151780598845931) % 2 ^ 64 in bit_xor z₂ (z₂ / 2 ^ 31)

-- Whether one of the `n` minutes from `start` is the given one.
unfoldable pub in_window : ℕ → ℕ → ℕ → Bool
in_window zero start minute = false
in_window (suc k) start minute = in_window k start minute || ((start + k) % 60 == minute)

unfoldable pub is_fee_minute : ℕ → ℕ → ℕ → Bool
is_fee_minute minutes lane_id minute_of_hour = in_window minutes (mix lane_id % 60) minute_of_hour

unfoldable pub is_pool_fee_minute : ℕ → ℕ → Bool
is_pool_fee_minute = is_fee_minute pool_fee_minutes_per_hour

-- How many of the first minutes pass a test.
unfoldable pub count : ℕ → (ℕ → Bool) → ℕ
count zero test = 0
count (suc m) test = count m test + (if test m then 1 else 0)

count-equal : (v n : ℕ) → count n (λ m. v == m) ≡ if◌then◌else◌ (ltb v n) 1 0
unfolding count
count-equal v zero = ground arith
count-equal v (suc n) = ground (arith, count-equal v n)

count-never : (n : ℕ) → count n (λ m. false) ≡ 0
unfolding count
count-never zero = refl
count-never (suc n) = ground (arith, count-never n)

-- Two tests that never pass together.
count-apart :
    (f g : ℕ → Bool) (n : ℕ)
    → ((m : ℕ) → f m ≡ true → g m ≡ false)
    → count n (λ m. f m || g m) ≡ count n f + count n g
unfolding count
count-apart f g zero apart = refl
count-apart f g (suc n) apart = elim (Bool-cases (f n)) [
  | inl hit ↦ ground (arith, count-apart f g n apart, hit, apart n hit)
  | inr miss ↦ ground (arith, count-apart f g n apart, miss)
]

-- A window of at most 60 minutes does not reach its own start again.
window-apart :
    (k j start minute : ℕ)
    → k ≤ j
    → j < 60
    → in_window k start minute ≡ true
    → ((start + j) % 60 == minute) ≡ false
unfolding in_window
window-apart zero j start minute below fits h = absurd (ground (arith, h))
window-apart (suc k) j start minute below fits h = elim (Bool-cases (in_window k start minute)) [
  | inl hit ↦ window-apart k j start minute (omega (arith, below)) fits hit
  | inr miss ↦ ground (arith, h, miss, below, fits)
]

window-count : (n start : ℕ) → n ≤ 60 → count 60 (in_window n start) ≡ n
unfolding in_window
window-count zero start fits = count-never 60
window-count (suc k) start fits = ground (
  arith,
  count-apart (in_window k start) (λ m. (start + k) % 60 == m) 60
      (λ m h. window-apart k k start m (omega arith) (omega (arith, fits)) h),
  count-equal ((start + k) % 60) 60,
  window-count k start (omega (arith, fits)),
)

-- Every lane is in its window in exactly the given number of minutes of an hour, wherever the
-- window starts and also if it passes the end of the hour, for any number up to 60.
pub fee_minutes :
    (minutes lane_id : ℕ) → minutes ≤ 60 → count 60 (is_fee_minute minutes lane_id) ≡ minutes
unfolding is_fee_minute
fee_minutes minutes lane_id fits = window-count minutes (mix lane_id % 60) fits

-- ===== src/Usage/Schedule/Backoff.antt =====
-- internal/usage/scheduler.go: exponentialBackoff and boundedJitter.
use native.Mathlib.Nat.{pow-suc}
use codex_folio.Base.{
  ℕ, zero, suc, ◌+◌, ◌*◌, ◌-◌, ◌/◌, ◌^◌, ◌≤◌, ◌≡◌, min, refl, Bool, inl, inr, ltb, eqb, Duration,
  hour, arith, if◌then◌else◌, Bool-cases, false, true, ◌≢◌, ap, eqb_iff,
}

abbrev pub maximum_backoff : Duration
maximum_backoff = 6 * hour

-- The loop, by the rounds that `count < failures` still allows.
backoff_loop : ℕ → Duration → Duration
backoff_loop zero backoff = backoff
backoff_loop (suc rounds) backoff =
    let doubled = backoff * 2 in
    let rest =
      backoff_loop rounds (if ltb maximum_backoff doubled then maximum_backoff else doubled) in
    if ltb backoff maximum_backoff then rest else backoff

unfoldable pub exponential_backoff : ℕ → Duration → Duration
unfolding backoff_loop
exponential_backoff failures minimum =
    backoff_loop ((if ltb failures 1 then 1 else failures) - 1) minimum

backoff_loop-full : (rounds : ℕ) → backoff_loop rounds maximum_backoff ≡ maximum_backoff
unfolding backoff_loop
backoff_loop-full zero = refl
backoff_loop-full (suc rounds) = refl

power_pos : (n : ℕ) → 1 ≤ 2 ^ n
power_pos zero = omega arith
power_pos (suc n) = rw pow-suc (omega (arith, power_pos n))

doubling : (b n : ℕ) → b * 2 ^ suc n ≡ b * 2 * 2 ^ n
doubling b n = rw pow-suc (grind arith)

grows : (b n : ℕ) → b ≤ b * 2 ^ n
grows b n = grind (arith, power_pos n)

backoff_loop_closed :
    (rounds : ℕ) (b : Duration)
    → b ≤ maximum_backoff
    → backoff_loop rounds b ≡ min (b * 2 ^ rounds) maximum_backoff
unfolding backoff_loop
backoff_loop_closed zero b k = omega arith
backoff_loop_closed (suc r) b k = ground (
  arith,
  backoff_loop-full r,
  backoff_loop_closed r (b * 2),
  doubling b r,
  grows (b * 2) r,
  grows b (suc r),
)

pred-suc : (n : ℕ) → suc n - 1 ≡ n
pred-suc n = omega arith

backoff-suc :
    (n : ℕ) (minimum : Duration)
    → minimum ≤ maximum_backoff
    → exponential_backoff (suc n) minimum ≡ min (minimum * 2 ^ n) maximum_backoff
unfolding exponential_backoff
backoff-suc n minimum h =
    ground (arith, backoff_loop_closed n minimum h, ap (λ k. backoff_loop k minimum) (pred-suc n))

-- The delay after `failures` failed collections doubles the minimum once for each failure after the
-- first, and stops at six hours, for a minimum of at most six hours.
pub exponential_backoff_closed :
    (failures : ℕ) (minimum : Duration)
    → minimum ≤ maximum_backoff
    → exponential_backoff failures minimum ≡ min (minimum * 2 ^ (failures - 1)) maximum_backoff
unfolding exponential_backoff
exponential_backoff_closed zero minimum h = backoff_loop_closed 0 minimum h
exponential_backoff_closed (suc failures) minimum h =
    rw (pred-suc failures) (backoff-suc failures minimum h)

pub exponential_backoff_bounds :
    (failures : ℕ) (minimum : Duration)
    → minimum ≤ maximum_backoff
    → (minimum ≤ exponential_backoff failures minimum)
      × (exponential_backoff failures minimum ≤ maximum_backoff)
exponential_backoff_bounds failures minimum h =
    omega (arith, exponential_backoff_closed failures minimum h, grows minimum (failures - 1))

-- A further failure never brings the next attempt nearer.
pub exponential_backoff_mono :
    (failures : ℕ) (minimum : Duration)
    → minimum ≤ maximum_backoff
    → exponential_backoff failures minimum ≤ exponential_backoff (suc failures) minimum
exponential_backoff_mono zero minimum h =
    omega (arith, exponential_backoff_closed 0 minimum h, exponential_backoff_closed 1 minimum h)
exponential_backoff_mono (suc n) minimum h =
    omega (arith, backoff-suc n minimum h, backoff-suc (suc n) minimum h, doubling minimum n)

-- An int64, as the jitter function returns it: `neg n` is -(n + 1).
pub data Int64 : Type 0 where
  pos : ℕ → Int64
  neg : ℕ → Int64

-- The largest n of `neg n`.
abbrev pub most_negative : ℕ
most_negative = 2 ^ 63 - 1

-- `-value`, which wraps at the most negative value.
negate : Int64 → Int64
negate (pos zero) = pos zero
negate (pos (suc n)) = neg n
negate (neg n) = if eqb n most_negative then neg n else pos (suc n)

is_negative : Int64 → Bool
is_negative (pos n) = false
is_negative (neg n) = true

exceeds : Int64 → Duration → Bool
exceeds (pos n) d = ltb d n
exceeds (neg n) d = false

-- `value` is what the jitter function answers for the interval.
unfoldable pub bounded_jitter : Duration → Int64 → Int64
unfolding negate is_negative exceeds
bounded_jitter interval value =
    let maximum = interval / 10 in
    let value' = if is_negative value then negate value else value in
    if exceeds value' maximum then pos maximum else value'

positive_jitter :
    (interval n : ℕ) → (m : ℕ) × (bounded_jitter interval (pos n) ≡ pos m) × (m ≤ interval / 10)
unfolding bounded_jitter
positive_jitter interval n = elim (Bool-cases (ltb (interval / 10) n)) [
  | inl above ↦ (interval / 10, rw above, omega arith)
  | inr within ↦ (n, rw within, ground arith)
]

-- Whatever the jitter function answers, but the most negative int64, the jitter that is added is
-- between nothing and a tenth of the interval.
pub bounded_jitter_range :
    (interval : Duration) (value : Int64)
    → value ≢ neg most_negative
    → (n : ℕ) × (bounded_jitter interval value ≡ pos n) × (n ≤ interval / 10)
unfolding bounded_jitter
bounded_jitter_range interval (pos n) h = positive_jitter interval n
bounded_jitter_range interval (neg n) h = elim (Bool-cases (eqb n most_negative)) [
  | inl least ↦ absurd (h (ap neg ((eqb_iff n most_negative).0 least)))
  | inr other ↦ let (m, e, b) = positive_jitter interval (suc n) in (m, rw other e, b)
]

-- At the most negative int64 the negation wraps, and that value itself is added.
pub bounded_jitter_wraps :
    (interval : Duration) → bounded_jitter interval (neg most_negative) ≡ neg most_negative
unfolding bounded_jitter
bounded_jitter_wraps interval = refl

-- `t.Add(d)`; before the zero instant it stops there.
unfoldable pub shift : ℕ → Int64 → ℕ
shift t (pos n) = t + n
shift t (neg n) = t - suc n

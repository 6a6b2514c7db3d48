-- ===== src/Retry.antt =====
-- retry.py: the delay before a request is tried again. With `scale` steps in the random value's unit
-- interval, a second has 8 * scale ticks, and every delay is a whole number of ticks.
use proofcoder.Base.{
  ℕ, ◌+◌, ◌-◌, ◌*◌, ◌^◌, ◌≤◌, ◌<◌, min, max, String, ◌≡◌, subst, Option, none, some, arith, ltb,
}
use proofcoder.Base.Int.{ℤ, pos, negsuc}
use proofcoder.Base.Result.{Result, ok, ◌>>◌, raise_if}
use proofcoder.Errors.{LlmRequestError}
use native.Mathlib.Nat.{mul-le-mul, one-le-pow}

module _ (scale : ℕ) where
  abbrev pub second : ℕ
  second = 8 * scale

  abbrev pub max_retry_after : ℕ
  max_retry_after = 30 * second

  -- 2 ** (retry_number - 1) halves of a second, 16 halves at most
  abbrev pub halves : ℕ → ℕ
  halves retry_number = min (2 ^ (retry_number - 1)) 16

  at_least : Option ℤ → ℕ → ℕ
  at_least (some (pos after)) delay = max delay (min after max_retry_after)
  at_least _ delay = delay

  -- half a second is 4 * scale ticks, and a quarter of it times the random value r / scale is r ticks
  unfoldable pub retry_delay_seconds : LlmRequestError → ℕ → ℕ → Result String ℕ
  unfolding at_least
  retry_delay_seconds error retry_number random_value = do
    raise_if (ltb retry_number 1) "retry number must be positive"
    raise_if (ltb scale random_value) "random value must be between zero and one"
    let delay = halves retry_number * (4 * scale) + halves retry_number * random_value
    ok (min (at_least error.retry_after_seconds delay) max_retry_after)

  halves_pos : (n : ℕ) → 0 < halves n
  halves_pos n = omega (arith, one-le-pow (n - 1) 2 (omega arith))

  -- What a delay satisfies, for the time that the provider names.
  abbrev IsDelay : Option ℤ → ℕ → Type 0
  IsDelay named delay =
      (4 * scale ≤ delay)
      × (delay ≤ 30 * second)
      × (named ≡ none → delay ≤ 10 * second)
      × ((after : ℕ) → named ≡ some (pos after) → min after (30 * second) ≤ delay)

  capped-IsDelay :
      (named : Option ℤ) (delay : ℕ)
      → 4 * scale ≤ delay
      → delay ≤ 10 * second
      → IsDelay named (min (at_least named delay) max_retry_after)
  unfolding at_least
  capped-IsDelay none delay l u = (omega arith, omega arith, λ e. omega arith, λ after e. cc)
  capped-IsDelay (some (negsuc n)) delay l u =
      (omega arith, omega arith, λ e. omega arith, λ after e. cc)
  capped-IsDelay (some (pos n)) delay l u =
      (omega arith, omega arith, λ e. cc, λ after e. ground arith)

  -- A delay that is given is at least half a second and at most 30 seconds; it is at most 10 seconds
  -- where the provider names no time, and at least the provider's time, up to 30 seconds, where it
  -- names one that is not negative.
  pub delay_bounds :
      (error : LlmRequestError) (n r : ℕ) {delay : ℕ}
      → retry_delay_seconds error n r ≡ ok delay
      → (4 * scale ≤ delay)
        × (delay ≤ 30 * second)
        × (error.retry_after_seconds ≡ none → delay ≤ 10 * second)
        × ((after : ℕ)
            → error.retry_after_seconds ≡ some (pos after)
            → min after (30 * second) ≤ delay)
  unfolding retry_delay_seconds
  delay_bounds error n r {delay} e =
      let m : ℕ = halves n in
      let facts : (r ≤ scale)
          × (min (at_least error.retry_after_seconds (m * (4 * scale) + m * r)) max_retry_after
              ≡ delay) =
        ground arith in
      let low : 1 * (4 * scale) ≤ m * (4 * scale) = mul-le-mul (halves_pos n) (omega arith) in
      let high : m * (4 * scale) ≤ 16 * (4 * scale) = mul-le-mul (omega arith) (omega arith) in
      let jitter : m * r ≤ 16 * scale = mul-le-mul (omega arith) facts.0 in
      subst (IsDelay error.retry_after_seconds) facts.1 (
        capped-IsDelay error.retry_after_seconds (m * (4 * scale) + m * r) (omega arith)
          (omega arith))

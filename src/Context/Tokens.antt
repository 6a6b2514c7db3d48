-- ===== src/Context/Tokens.antt =====
-- context.py, TokenBudget: a token limit as a byte limit. The source's floating-point ratio of bytes
-- to tokens is an exact fraction here.
use Prim.Native.Nat.{max}
use proofcoder.Base.{
  ℕ, ◌+◌, ◌*◌, ◌/◌, ◌≤◌, ◌<◌, String, ◌≡◌, Bool, ◌||◌, Option, none, some, arith, if◌then◌else◌,
  leb, ltb, inl, inr, Bool-cases,
}
use native.Mathlib.Nat.{
  mul-le-mul_left, lt_of_mul-lt-mul_right, div-le_of_le-mul, div-add-mod', mod-lt,
}
use proofcoder.Base.Result.{Result, ok, ◌>>◌, raise_if}

-- num / den
pub record Ratio : Type 0 where
  pub num : ℕ
  pub den : ℕ

abbrev pub le_ratio : Ratio → Ratio → Bool
le_ratio a b = leb (a.num * b.den) (b.num * a.den)

abbrev pub default_token_size_bytes : Ratio
default_token_size_bytes = record { num = 2; den = 1 }

-- 0.5 and 6.0
abbrev pub min_token_size_bytes : Ratio
min_token_size_bytes = record { num = 1; den = 2 }

abbrev pub max_token_size_bytes : Ratio
max_token_size_bytes = record { num = 6; den = 1 }

pub record TokenBudget : Type 0 where
  pub max_tokens : ℕ
  pub bytes_per_token : Ratio

unfoldable pub new_token_budget : ℕ → Result String TokenBudget
new_token_budget n = do
  raise_if (ltb n 1) "token budget must be positive"
  ok (record { max_tokens = n; bytes_per_token = default_token_size_bytes })

unfoldable pub byte_limit : TokenBudget → ℕ
byte_limit b = max 1 (b.max_tokens * b.bytes_per_token.num / b.bytes_per_token.den)

-- min(6.0, max(0.5, ratio))
unfoldable pub clamp_ratio : Ratio → Ratio
clamp_ratio r =
    if le_ratio r min_token_size_bytes
    then min_token_size_bytes
    else if le_ratio max_token_size_bytes r
    then max_token_size_bytes
    else r

-- request_bytes / prompt_tokens * 0.9
unfoldable pub observe : ℕ → Option ℕ → TokenBudget → TokenBudget
unfolding clamp_ratio
observe request_bytes none b = b
observe request_bytes (some prompt_tokens) b =
    if ltb prompt_tokens 1 || ltb request_bytes 1 then b else record b {
      bytes_per_token = clamp_ratio (record { num = request_bytes * 9; den = prompt_tokens * 10 });
    }

-- A ratio from one half to six bytes a token.
pub record IsClamped (r : Ratio) : Type 0 where
  pub fraction : 0 < r.den
  pub least : r.den ≤ 2 * r.num
  pub most : r.num ≤ 6 * r.den

abbrev pub IsCalibrated : TokenBudget → Type 0
IsCalibrated b = IsClamped b.bytes_per_token

clamp_ratio-IsClamped : (r : Ratio) → 0 < r.den → IsClamped (clamp_ratio r)
unfolding clamp_ratio
clamp_ratio-IsClamped r h = ground arith

new_token_budget-IsCalibrated :
    (n : ℕ) {b : TokenBudget} → new_token_budget n ≡ ok b → IsCalibrated b
unfolding new_token_budget
new_token_budget-IsCalibrated n h = ground arith

-- Whatever a provider reports, the ratio stays from one half to six bytes a token.
pub observe-IsCalibrated :
    (request_bytes : ℕ) (prompt_tokens : Option ℕ) (b : TokenBudget)
    → IsCalibrated b
    → IsCalibrated (observe request_bytes prompt_tokens b)
unfolding observe
observe-IsCalibrated request_bytes none b h = h
observe-IsCalibrated request_bytes (some n) b h =
    elim (Bool-cases (ltb n 1 || ltb request_bytes 1)) [
      | inl skip ↦ rw skip h
      | inr take ↦
          rw take (
            clamp_ratio-IsClamped (record { num = request_bytes * 9; den = n * 10 }) (ground arith))
    ]

quotient_least : (x t d : ℕ) → 0 < d → t * d ≤ 2 * x → t < 2 * (x / d) + 2
quotient_least x t d p h = lt_of_mul-lt-mul_right d (omega (arith, div-add-mod' x d, mod-lt x p))

-- The byte limit of a calibrated budget is positive, at most six bytes a token, and at least half a
-- byte a token, rounded down.
pub byte_limit_bounds :
    (b : TokenBudget)
    → IsCalibrated b
    → 0 < b.max_tokens
    → (0 < byte_limit b) × (byte_limit b ≤ 6 * b.max_tokens) × (b.max_tokens ≤ 2 * byte_limit b + 1)
unfolding byte_limit
byte_limit_bounds b h pos =
    let x : ℕ = b.max_tokens * b.bytes_per_token.num in
    let most : x / b.bytes_per_token.den ≤ 6 * b.max_tokens =
      div-le_of_le-mul b.bytes_per_token.den (omega (arith, mul-le-mul_left b.max_tokens h.most)) in
    let least : b.max_tokens < 2 * (x / b.bytes_per_token.den) + 2 =
      quotient_least x b.max_tokens b.bytes_per_token.den h.fraction
        (omega (arith, mul-le-mul_left b.max_tokens h.least)) in
    (omega arith, omega arith, omega arith)

-- ===== src/Jobs/Backoff.antt =====
-- packages/core/jobs/backoff.py. Times and delays are in microseconds, PostgreSQL's resolution, so
-- the source's float seconds are whole numbers here. The random generator's `uniform` is an argument.
pub mod Bounds
use unified_search_safe_send.Prelude.{
  ℕ, ◌*◌, ◌^◌, ◌≤◌, min, max, Option, none, some, ltb, if◌then◌else◌,
}

abbrev pub second : ℕ
second = 1000000

abbrev pub base_seconds : ℕ
base_seconds = 2 * second

abbrev pub cap_seconds : ℕ
cap_seconds = 300 * second

abbrev pub exponent_clamp : ℕ
exponent_clamp = 16

-- the window from which the delay after `attempts` attempts is drawn
unfoldable pub ceiling : ℕ → ℕ
ceiling attempts =
    let exponent = min (max attempts 0) exponent_clamp in
    min cap_seconds (base_seconds * 2 ^ exponent)

unfoldable pub full_jitter : (ℕ → ℕ → ℕ) → ℕ → Option ℕ → ℕ
full_jitter uniform attempts none = uniform 0 (ceiling attempts)
full_jitter uniform attempts (some retry_after) =
    let jitter = uniform 0 (ceiling attempts) in
    if ltb 0 retry_after then max retry_after jitter else jitter

-- `random.uniform(a, b)` documents a value between its bounds.
abbrev pub IsUniform : (ℕ → ℕ → ℕ) → Type 0
IsUniform uniform = (lo hi : ℕ) → lo ≤ hi → (lo ≤ uniform lo hi) × (uniform lo hi ≤ hi)

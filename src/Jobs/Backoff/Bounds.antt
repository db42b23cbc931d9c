-- ===== src/Jobs/Backoff/Bounds.antt =====
-- The bounds of the retry delay.
use unified_search_safe_send.Prelude.{ℕ, ◌≤◌, Option, none, some, arith, max, or_default}
use unified_search_safe_send.Jobs.Backoff.{ceiling, full_jitter, cap_seconds, IsUniform}

ceiling-le : (attempts : ℕ) → ceiling attempts ≤ cap_seconds
unfolding ceiling
ceiling-le attempts = omega arith

-- With a generator that keeps to its bounds, the delay is never shorter than what the provider asked
-- for and never longer than the cap or, where that is longer, what the provider asked for.
pub full_jitter-bounds :
    (uniform : ℕ → ℕ → ℕ) (attempts : ℕ) (retry_after : Option ℕ)
    → IsUniform uniform
    → (or_default retry_after 0 ≤ full_jitter uniform attempts retry_after)
      × (full_jitter uniform attempts retry_after ≤ max cap_seconds (or_default retry_after 0))
unfolding full_jitter
full_jitter-bounds uniform attempts none u =
    let (lo, hi) = u 0 (ceiling attempts) (omega arith) in
    (omega arith, omega (arith, hi, ceiling-le attempts))
full_jitter-bounds uniform attempts (some r) u =
    let (lo, hi) = u 0 (ceiling attempts) (omega arith) in
    (ground (arith, hi, ceiling-le attempts), ground (arith, hi, ceiling-le attempts))

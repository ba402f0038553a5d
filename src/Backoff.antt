-- ===== src/Backoff.antt =====
-- apps/web/src/lib/utils.ts: the delay before a connection is tried again.
use youtube_rooms.Prelude.{ℕ, ◌*◌, ◌^◌, ◌≤◌, ◌<◌, ◌≡◌, suc, min, arith}
use native.Mathlib.Nat.{pow-suc}

-- Math.random() is `random` of these parts; a delay is counted in as many parts of a millisecond.
abbrev pub random_parts : ℕ
random_parts = 2 ^ 53

abbrev pub base_ms : ℕ
base_ms = 500

abbrev pub max_ms : ℕ
max_ms = 15000

unfoldable pub ceiling : ℕ → ℕ
ceiling attempt = min max_ms (base_ms * 2 ^ attempt)

-- backoffDelay, with the default base and cap.
unfoldable pub backoff_delay : ℕ → ℕ → ℕ
unfolding ceiling
backoff_delay random attempt = random * ceiling attempt

-- The next ceiling is twice the last, until the cap of 15 s is met.
pub ceiling-suc : (attempt : ℕ) → ceiling (suc attempt) ≡ min max_ms (2 * ceiling attempt)
unfolding ceiling
ceiling-suc attempt = omega (arith, pow-suc 2 attempt)

ceiling-le : (attempt : ℕ) → ceiling attempt ≤ max_ms
unfolding ceiling
ceiling-le attempt = omega arith

scaled : (r parts c : ℕ) → r < parts → c ≤ max_ms → (r * c ≤ parts * c) × (r * c < parts * max_ms)
scaled r parts c h k = (grind arith, grind arith)

-- A delay is below the ceiling of its attempt, and so below 15 s.
pub backoff_delay-lt :
    (random attempt : ℕ)
    → random < random_parts
    → (backoff_delay random attempt ≤ random_parts * ceiling attempt)
      × (backoff_delay random attempt < random_parts * max_ms)
unfolding backoff_delay
backoff_delay-lt random attempt h =
    scaled random random_parts (ceiling attempt) h (ceiling-le attempt)

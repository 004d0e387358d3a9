-- ===== src/RateLimit.antt =====
-- app/ratelimit.py: the rate limiter of the parallel send path.
-- The source computes with floats. A float that is finite and not negative is a whole number of ticks
-- of a small size, and what the clock reads, the intervals and the slots are such numbers here. The
-- floats' own arithmetic, which rounds, is a parameter.
pub mod Window
use ubki_uploader.Prelude.{ℕ, Option, none, some, List, [], ◌∷◌, ltb, if◌then◌else◌}
use ubki_uploader.Prelude.Int.{ℤ, is_positive}

-- `a + b`, `a - b` and `1.0 / a` on floats.
pub record Floats : Type 0 where
  pub plus : ℕ → ℕ → ℕ
  pub minus : ℕ → ℕ → ℕ
  pub reciprocal : ℤ → ℕ

pub record RateLimiter : Type 0 where
  pub interval : ℕ
  pub next_slot : ℕ

-- `none` for the ValueError.
unfoldable pub rate_limiter : Floats → (rate_per_sec : ℤ) → Option RateLimiter
rate_limiter floats rate_per_sec =
    if is_positive rate_per_sec
    then some (record { interval = floats.reciprocal rate_per_sec; next_slot = 0 })
    else none

-- The part of `acquire` under the lock: the slot that the caller reserves, from a clock reading.
unfoldable pub reserve : Floats → RateLimiter → (now : ℕ) → ℕ × RateLimiter
reserve floats l now =
    let slot = if ltb now l.next_slot then l.next_slot else now in
    (slot, record l { next_slot = floats.plus slot l.interval })

-- The part outside the lock: how long the caller sleeps, from a second reading; 0 where it does not.
unfoldable pub wait_for : Floats → (slot now : ℕ) → ℕ
wait_for floats slot now = if ltb now slot then floats.minus slot now else 0

-- The slots that a sequence of callers reserve; the lock makes it a sequence.
unfoldable pub slots : Floats → RateLimiter → List ℕ → List ℕ
unfolding reserve
slots floats l [] = []
slots floats l (now ∷ readings) =
    let (slot, l') = reserve floats l now in slot ∷ slots floats l' readings

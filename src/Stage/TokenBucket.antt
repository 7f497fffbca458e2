-- ===== src/Stage/TokenBucket.antt =====
-- The rate limiter, backend/app/brokers/ratelimit.py. An instant is a number of microseconds and a
-- token is 60,000,000 units, so that each microsecond accrues `rate_per_minute` units and the sums
-- are exact; the rounding of floats is not modelled.
use roi_gen.Base.{
  ℕ, ◌+◌, ◌-◌, ◌*◌, min, ◌≤◌, ◌≡◌, refl, Bool, true, false, ◌||◌, Option, none, some, List, [], ◌∷◌,
  arith, ltb, leb, ◌==◌, if◌then◌else◌,
}
pub mod Bounds

abbrev pub token : ℕ
token = 60000000

pub record TokenBucket : Type 0 where
  pub capacity : ℕ
  pub rate_per_minute : ℕ
  pub tokens : ℕ
  pub updated_at : ℕ

abbrev pub or_rate : Option ℕ → ℕ → ℕ
or_rate none rate = rate
or_rate (some burst) rate = burst

abbrev pub is_zero_burst : Option ℕ → Bool
is_zero_burst none = false
is_zero_burst (some burst) = burst == 0

-- The constructor, at the instant `now`; `none` is a ValueError.
unfoldable pub new_bucket : ℕ → Option ℕ → ℕ → Option TokenBucket
new_bucket rate burst now =
    if (rate == 0) || is_zero_burst burst
    then none
    else some (record {
      capacity = or_rate burst rate * token;
      rate_per_minute = rate;
      tokens = or_rate burst rate * token;
      updated_at = now;
    })

-- At the instant `now`. Nothing accrues where the clock has not moved on.
pub refill : ℕ → TokenBucket → TokenBucket
refill now b =
    if ltb b.updated_at now
    then record b {
      tokens = min b.capacity (b.tokens + (now - b.updated_at) * b.rate_per_minute);
      updated_at = now;
    }
    else b

-- The rounds of the loop, one for each reading of the clock; `none` where it still waits after them.
unfoldable pub acquire_loop : ℕ → List ℕ → TokenBucket → Option TokenBucket
unfolding refill
acquire_loop wanted [] b = none
acquire_loop wanted (now ∷ later) b =
    let filled = refill now b in
    let rest = acquire_loop wanted later filled in
    if leb wanted filled.tokens
    then some (record filled { tokens = filled.tokens - wanted })
    else rest

-- `acquire`: a ValueError, or what the loop comes to.
pub data Acquired : Type 0 where
  value_error : Acquired
  looped : Option TokenBucket → Acquired

unfoldable pub acquire : ℕ → List ℕ → TokenBucket → Acquired
unfolding acquire_loop
acquire tokens clock b =
    if (tokens == 0) || ltb b.capacity (tokens * token)
    then Acquired.value_error
    else Acquired.looped (acquire_loop (tokens * token) clock b)

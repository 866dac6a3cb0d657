-- ===== src/RateLimit.antt =====
-- `InProcessFixedWindowRateLimiter` of apps/ratelimit.py: a budget of calls per key and minute.
pub mod Budget
mod Tests
use coruscant.Prelude.{
  ℕ, zero, suc, ◌+◌, String, Bool, true, false, Option, none, some, List, [], ◌∷◌, leb, ◌==◌,
  if◌then◌else◌, string_eq, nat_eq,
}
use coruscant.Prelude.Dict
use coruscant.Prelude.Dict.{Dict}

-- key ↦ (window_minute, count)
abbrev pub Buckets : Type 0
Buckets = Dict String (ℕ × ℕ)

-- The count of the key in the minute, which is 0 in a new window.
abbrev pub count_in : ℕ → Option (ℕ × ℕ) → ℕ
count_in now none = 0
count_in now (some (window, count)) = if window == now then count else 0

-- `allow`, at the minute that the clock shows before the lock is taken. A limit that is not positive is 0.
unfoldable pub allow : ℕ → String → ℕ → Buckets → Bool × Buckets
allow zero key now buckets = (true, buckets)
allow (suc limit) key now buckets =
    let count = count_in now (Dict.get key buckets) + 1 in
    (leb count (suc limit), Dict.set key (now, count) buckets)

-- A call: its key, and the minute in which it comes.
abbrev pub Call : Type 0
Call = String × ℕ

-- What the calls are answered, one after the other.
unfoldable pub answers : ℕ → Buckets → List Call → List (Call × Bool)
unfolding allow
answers limit buckets [] = []
answers limit buckets ((key, now) ∷ calls) =
    let (allowed, after) = allow limit key now buckets in
    ((key, now), allowed) ∷ answers limit after calls

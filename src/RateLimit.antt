-- ===== src/RateLimit.antt =====
-- The token bucket of apps/api/src/middlewares/rateLimiter.ts: the script that runs in Redis, and the middleware
-- round it. A rate is a fraction of tokens per second, and tokens are counted in parts, a thousand for each
-- token and each part of the rate's denominator, so that a refill is a whole number: the rounding of the
-- script's floating point is left out. Headers are left out, and the bucket's hash ends with its EXPIRE.
pub mod Bounds
pub mod Tests
use kartit.Prelude.{
  ℕ, ◌+◌, ◌-◌, ◌*◌, ◌/◌, Bool, true, false, Option, none, some, leb, ltb, if◌then◌else◌,
}

pub record Limits : Type 0 where
  pub capacity : ℕ
  -- tokens per second
  pub rate_num : ℕ
  pub rate_den : ℕ
  pub cost : ℕ

pub record Bucket : Type 0 where
  -- in parts
  pub tokens : ℕ
  pub last : ℕ
  pub ends : ℕ

pub record Verdict : Type 0 where
  pub allowed : Bool
  pub remaining : ℕ
  -- in seconds
  pub retry_after : ℕ

abbrev pub ceil_div : ℕ → ℕ → ℕ
ceil_div a b = (a + (b - 1)) / b

abbrev pub min : ℕ → ℕ → ℕ
min a b = if leb a b then a else b

-- The parts of a token, of a full bucket, and of a request.
abbrev pub unit : Limits → ℕ
unit l = 1000 * l.rate_den

abbrev pub full : Limits → ℕ
full l = l.capacity * unit l

abbrev pub price : Limits → ℕ
price l = l.cost * unit l

-- `math.ceil(cap / rate) + 60`, in seconds
abbrev pub ttl : Limits → ℕ
ttl l = ceil_div (l.capacity * l.rate_den) l.rate_num + 60

-- The tokens and the time that the script starts from, where the hash is there and has not ended.
abbrev pub fresh_bucket : Limits → ℕ → Bucket
fresh_bucket l now = record { tokens = full l; last = now; ends = now }

unfoldable pub read_bucket : Limits → ℕ → Option Bucket → Bucket
read_bucket l now none = fresh_bucket l now
read_bucket l now (some b) = if ltb now b.ends then b else fresh_bucket l now

-- The refill: nothing where no time has passed.
unfoldable pub refilled : Limits → ℕ → Bucket → Bucket
refilled l now b =
    let refill = (now - b.last) * l.rate_num in
    if ltb 0 refill then record b { tokens = min (full l) (b.tokens + refill); last = now } else b

abbrev pub persisted : Limits → ℕ → ℕ → Bucket → Bucket
persisted l now tokens b = record { tokens = tokens; last = b.last; ends = now + ttl l * 1000 }

unfoldable pub take_token : Limits → ℕ → Option Bucket → Verdict × Bucket
take_token l now bucket =
    let b = refilled l now (read_bucket l now bucket) in
    if leb (price l) b.tokens
    then (
      record { allowed = true; remaining = (b.tokens - price l) / unit l; retry_after = 0 },
      persisted l now (b.tokens - price l) b,
    )
    else (
      record {
        allowed = false;
        remaining = b.tokens / unit l;
        retry_after = ceil_div (price l - b.tokens) (l.rate_num * 1000);
      },
      persisted l now b.tokens b,
    )

-- What the middleware does: the next handler, or 429 with the seconds to wait.
pub data Passage : Type 0 where
  goes_on : Passage
  rate_limited : ℕ → Passage

-- `script` is the answer of Redis, `none` an error.
unfoldable pub limit_request : Bool → Option Verdict → Passage
limit_request true script = goes_on
limit_request false none = goes_on
limit_request false (some v) = if v.allowed then goes_on else rate_limited v.retry_after

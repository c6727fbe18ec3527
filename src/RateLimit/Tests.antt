-- ===== src/RateLimit/Tests.antt =====
-- Two tokens, one a minute.
use kartit.Prelude.{ℕ, ◌+◌, ◌-◌, ◌*◌, ◌≤◌, ◌≡◌, refl, false, none, some, [], ◌∷◌, arith, List}
use kartit.RateLimit.{
  Limits, rate_limited, full, price, take_token, read_bucket, refilled, limit_request,
}
use kartit.RateLimit.Bounds.{passed, passed-bound}

abbrev two_a_minute : Limits
two_a_minute = record { capacity = 2; rate_num = 1; rate_den = 60; cost = 1 }

abbrev burst : List ℕ
burst = 1000 ∷ 1100 ∷ 1200 ∷ 61000 ∷ 61100 ∷ []

burst-passed : passed two_a_minute burst none ≡ 3
unfolding passed take_token read_bucket refilled
burst-passed = refl

third_waits :
    (take_token two_a_minute 1200
      (some (take_token two_a_minute 1100 (some (take_token two_a_minute 1000 none).1)).1)).0
    ≡ record { allowed = false; remaining = 0; retry_after = 60 }
unfolding take_token read_bucket refilled
third_waits = refl

stopped :
    limit_request false (some (record { allowed = false; remaining = 0; retry_after = 60 }))
    ≡ rate_limited 60
unfolding limit_request
stopped = refl

passed-bound_example :
    passed two_a_minute burst none * price two_a_minute
    ≤ full two_a_minute + (61100 - 1000) * two_a_minute.rate_num
passed-bound_example = passed-bound two_a_minute 1000 61100 burst (omega arith) (omega arith) (
  omega arith,
  omega arith,
  (
    omega arith,
    omega arith,
    (omega arith, omega arith, (omega arith, omega arith, (omega arith, omega arith, tt))),
  ),
)

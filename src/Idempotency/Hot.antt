-- ===== src/Idempotency/Hot.antt =====
-- The claim in Redis (apps/api/src/middlewares/idempotency-redis.ts). `stringify` and `parse` are those of JSON.
-- The nth command of a claim runs at the time `clock n`, since a key may end between two of them.
use kartit.Prelude.{
  ℕ, zero, suc, ◌+◌, ◌-◌, Bool, true, false, Option, none, some, [], ◌∷◌, ◌++◌, ltb, ◌==◌,
  if◌then◌else◌,
}
use kartit.Shared.Text.{Text, text_eq}
use kartit.Shared.Decimal.{to_text, number}
use kartit.Idempotency.{
  ttl_seconds, completed, ClaimResult, claimed, existing, threw, unfinished, blocked,
  redis_claim_key, redis_res_key,
}
use kartit.Idempotency.Redis.{RedisStore}

-- `cached.slice(0, cached.indexOf(":"))` and `cached.slice(cached.indexOf(":") + 1)`: without the sign,
-- the text less its last character and the whole text.
unfoldable pub has_colon : Text → Bool
has_colon [] = false
has_colon (c ∷ s) = let rest = has_colon s in if c == b':' then true else rest

unfoldable pub before_colon : Text → Text
before_colon [] = []
before_colon (c ∷ s) = let rest = before_colon s in if c == b':' then [] else c ∷ rest

unfoldable pub after_colon : Text → Text
after_colon [] = []
after_colon (c ∷ s) = let rest = after_colon s in if c == b':' then s else rest

unfoldable pub but_last : Text → Text
but_last [] = []
but_last (c ∷ []) = []
but_last (c ∷ d ∷ s) = c ∷ but_last (d ∷ s)

unfoldable pub status_part : Text → Text
status_part cached = if has_colon cached then before_colon cached else but_last cached

unfoldable pub body_part : Text → Text
body_part cached = if has_colon cached then after_colon cached else cached

-- A text counts as false in a test where it is empty.
abbrev pub truthy : Option Text → Option Text
truthy none = none
truthy (some []) = none
truthy (some (c ∷ s)) = some (c ∷ s)

-- `redisAvailable` and `lastRedisCheck`.
pub record Breaker : Type 0 where
  pub redis_available : Bool
  pub last_redis_check : ℕ

abbrev pub redis_check_interval_ms : ℕ
redis_check_interval_ms = 30000

-- `answers` tells whether `ping` succeeds.
unfoldable pub is_redis_available : ℕ → Bool → Breaker → Bool × Breaker
is_redis_available now answers b =
    if ltb (now - b.last_redis_check) redis_check_interval_ms
    then (b.redis_available, b)
    else (answers, record { redis_available = answers; last_redis_check = now })

module _ {R Body : Type 0} (redis : RedisStore R) (stringify : Body → Text)
    (parse : Text → Option Body) where
  -- The text under which a response is kept, and what a replay reads from it.
  abbrev pub cached_text : ℕ → Body → Text
  cached_text status body = to_text status ++ (b':' ∷ stringify body)

  unfoldable pub read_cached : Text → Text → ClaimResult Body
  read_cached request_hash cached = elim (parse (body_part cached)) [
    | none ↦ threw
    | some body ↦ existing (record {
      request_hash = request_hash;
      status = completed;
      response_status = number (status_part cached);
      response_body = some body;
    })
  ]

  -- Same hash: the cached response, or still in flight.
  abbrev pub answer_same : ℕ → Text → Text → Text → R → ClaimResult Body
  answer_same now user key request_hash r =
      elim (truthy (redis.get now (redis_res_key user key) r)) [
        | none ↦ blocked request_hash
        | some cached ↦ read_cached request_hash cached
      ]

  -- The rounds of `tryRedisClaim`, three commands each.
  unfoldable pub try_redis_claim : ℕ → (ℕ → ℕ) → Text → Text → Text → R → ClaimResult Body × R
  try_redis_claim zero clock user key request_hash r = (unfinished, r)
  try_redis_claim (suc rounds) clock user key request_hash r =
      let claim_k = redis_claim_key user key in
      elim (redis.get (clock 0) claim_k r) [
        | none ↦ (claimed request_hash, redis.set (clock 0) claim_k request_hash ttl_seconds r)
        | some _ ↦ elim (truthy (redis.get (clock 1) claim_k r)) [
          | none ↦ try_redis_claim rounds (λ n. clock (n + 2)) user key request_hash r
          | some existing_hash ↦
              if text_eq existing_hash request_hash
              then (answer_same (clock 2) user key request_hash r, r)
              else (blocked existing_hash, r)
        ]
      ]

  -- `landed` tells whether the command succeeds; an error is only logged.
  unfoldable pub cache_redis_response : Bool → ℕ → Text → Text → ℕ → Body → R → R
  cache_redis_response landed now user key status body r =
      if landed
      then redis.set now (redis_res_key user key) (cached_text status body) ttl_seconds r
      else r

  unfoldable pub release_redis_claim : Bool → Text → Text → R → R
  release_redis_claim landed user key r =
      if landed
      then redis.del (redis_res_key user key) (redis.del (redis_claim_key user key) r)
      else r

-- ===== src/Idempotency/Middleware.antt =====
-- The middleware itself (apps/api/src/middlewares/idempotency.ts) and the hook on the response
-- (apps/api/src/middlewares/idempotency-response-hook.ts). `hash` is hashRequest. Headers are left out.
use kartit.Prelude.{
  ℕ, ◌+◌, Bool, true, false, not, ◌&&◌, Option, none, some, List, length, leb, ltb, ◌==◌,
  if◌then◌else◌,
}
use kartit.Prelude.Table.{Table}
use kartit.Result.{
  Error, app_error, bad_request, conflict, validation_failed, unauthorized_code,
  idempotency_conflict, idempotency_in_progress,
}
use kartit.Shared.Text.{Text, text_eq}
use kartit.Shared.Decimal.{is_nil, trim}
use kartit.Idempotency.{
  ttl_ms, is_in_progress, Existing, ClaimResult, claimed, existing, threw, unfinished, KeyRow,
}
use kartit.Idempotency.Redis.{RedisStore}
use kartit.Idempotency.Hot.{
  Breaker, is_redis_available, try_redis_claim, cache_redis_response, release_redis_claim,
}
use kartit.Idempotency.Durable.{
  Round, postgres_path, ensure_postgres_row, update_postgres_completed, delete_postgres_claim,
}

pub data Route : Type 0 where
  redis_path postgres_path_only : Route

-- What becomes of a request: the handler runs without a hook, or with one; an error; a replay.
-- `crashed` is an error that a call threw, and `stuck` the end of the fuel.
pub data Answer (Body : Type 0) : Type 0 where
  passed : Answer Body
  running : Route → Answer Body
  refused : Error → Answer Body
  replay : Option ℕ → Option Body → Answer Body
  crashed stuck : Answer Body

pub record Request (Json : Type 0) : Type 0 where
  pub raw_key : Option Text
  pub user : Option Text
  pub body : Option Json

-- What the request meets outside: the time, whether `ping` succeeds, the times of the commands, the
-- number of rounds that are let run, the rounds in Postgres, whether the row is created, and its id.
pub record Surroundings (Body : Type 0) : Type 0 where
  pub now : ℕ
  pub ping_succeeds : Bool
  pub clock : ℕ → ℕ
  pub claim_rounds : ℕ
  pub postgres_rounds : List (Round Body)
  pub row_landed : Bool
  pub fresh : ℕ

pub record Stores (R Body : Type 0) : Type 0 where
  pub data_in_redis : R
  pub rows : Table (KeyRow Body)
  pub breaker : Breaker

-- The first `res.json` is captured; `close` counts only before it.
pub data Effect (Body : Type 0) : Type 0 where
  no_effect non_2xx : Effect Body
  success : ℕ → Body → Effect Body

-- Which of the writes of a hook, that nobody waits for, succeed.
pub record Landed : Type 0 where
  pub in_redis : Bool
  pub in_postgres : Bool

abbrev pub is_2xx : ℕ → Bool
is_2xx status = leb 200 status && ltb status 300

module _ {Body : Type 0} where
  -- `captured` before the call; a status of 0 counts as 200.
  unfoldable pub hook_json : Bool → ℕ → Body → Effect Body
  hook_json captured status_code body =
      let status = if status_code == 0 then 200 else status_code in
      if captured then no_effect else (if is_2xx status then success status body else non_2xx)

  unfoldable pub hook_close : Bool → Effect Body
  hook_close captured = if captured then no_effect else non_2xx

  -- The two answers to a key that exists already, or the replay.
  unfoldable pub reply_existing : Text → Existing Body → Answer Body
  reply_existing request_hash found =
      if not (text_eq found.request_hash request_hash)
      then refused (conflict idempotency_conflict)
      else if is_in_progress found.status
      then refused (conflict idempotency_in_progress)
      else replay found.response_status found.response_body

  abbrev pub reply : Route → Text → ClaimResult Body → Answer Body
  reply path request_hash (claimed _) = running path
  reply path request_hash (existing found) = reply_existing request_hash found
  reply path request_hash threw = crashed
  reply path request_hash unfinished = stuck

  abbrev pub is_claimed : ClaimResult Body → Bool
  is_claimed (claimed _) = true
  is_claimed (existing _) = false
  is_claimed threw = false
  is_claimed unfinished = false

module _ {R Body Json : Type 0} (redis : RedisStore R) (stringify : Body → Text)
    (parse : Text → Option Body) (empty_object : Body)
    (hash : Text → Text → Option Json → Text) where
  unfoldable pub on_redis :
      Surroundings Body → Text → Text → Text → Stores R Body → Answer Body × Stores R Body
  on_redis around user key request_hash s =
      let (result, after) =
        try_redis_claim redis stringify parse around.claim_rounds around.clock user key request_hash
          s.data_in_redis in
      let row_written =
        ensure_postgres_row around.row_landed around.fresh user key request_hash
          (around.now + ttl_ms) around.now s.rows in
      (
        reply redis_path request_hash result,
        record s {
          data_in_redis = after;
          rows = if is_claimed result then row_written else s.rows;
        },
      )

  unfoldable pub on_postgres :
      Surroundings Body → Text → Text → Text → Stores R Body → Answer Body × Stores R Body
  on_postgres around user key request_hash s =
      let (result, after) =
        postgres_path around.postgres_rounds empty_object around.fresh user key request_hash
          (around.now + ttl_ms) around.now s.rows in
      (reply postgres_path_only request_hash result, record s { rows = after })

  abbrev pub with_key :
      Surroundings Body → Text → Text → Option Json → Stores R Body → Answer Body × Stores R Body
  with_key around user key body s =
      let request_hash = hash user key body in
      let (available, breaker) = is_redis_available around.now around.ping_succeeds s.breaker in
      let checked : Stores R Body = record s { breaker = breaker } in
      if available
      then on_redis around user key request_hash checked
      else on_postgres around user key request_hash checked

  unfoldable pub idempotency :
      Surroundings Body → Request Json → Stores R Body → Answer Body × Stores R Body
  idempotency around req s = elim req.raw_key [
    | none ↦ (passed, s)
    | some raw_key ↦
        let key = trim raw_key in
        if is_nil key
        then (passed, s)
        else if ltb 255 (length key)
        then (refused (bad_request validation_failed), s)
        else elim req.user [
          | none ↦ (refused (app_error 401 unauthorized_code), s)
          | some user ↦ with_key around user key req.body s
        ]
  ]

  -- What the hook of a path does at a time.
  unfoldable pub run_effect :
      Route → Landed → ℕ → Text → Text → Effect Body → Stores R Body → Stores R Body
  run_effect path landed now user key no_effect s = s
  run_effect redis_path landed now user key (success status body) s = record s {
    data_in_redis =
        cache_redis_response redis stringify parse landed.in_redis now user key status body
          s.data_in_redis;
    rows = update_postgres_completed landed.in_postgres user key status body s.rows;
  }
  run_effect redis_path landed now user key non_2xx s = record s {
    data_in_redis =
        release_redis_claim redis stringify parse landed.in_redis user key s.data_in_redis;
    rows = delete_postgres_claim landed.in_postgres user key s.rows;
  }
  run_effect postgres_path_only landed now user key (success status body) s = record s {
    rows = update_postgres_completed landed.in_postgres user key status body s.rows;
  }
  run_effect postgres_path_only landed now user key non_2xx s = record s {
    rows = delete_postgres_claim landed.in_postgres user key s.rows;
  }

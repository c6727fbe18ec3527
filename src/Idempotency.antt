-- ===== src/Idempotency.antt =====
-- The Idempotency-Key middleware: apps/api/src/middlewares/idempotency-helpers.ts here, the other files in the
-- children. Users and keys are texts, since they are printed into the names under which Redis keeps a claim.
-- Times are in milliseconds.
pub mod Hash
pub mod Redis
pub mod Hot
pub mod Durable
pub mod Middleware
pub mod Promote
pub mod Spec
pub mod Refines
pub mod Rounds
pub mod Once
pub mod Tests
use kartit.Prelude.{ℕ, ◌+◌, ◌-◌, ◌*◌, Bool, true, false, ◌&&◌, Option, none, some, ◌++◌, leb, ltb}
use kartit.Shared.Text.{Text, codes}

abbrev pub ttl_seconds : ℕ
ttl_seconds = 86400

abbrev pub ttl_ms : ℕ
ttl_ms = ttl_seconds * 1000

abbrev pub stale_in_progress_ms : ℕ
stale_in_progress_ms = 15 * 60 * 1000

pub data IdempotencyStatus : Type 0 where
  in_progress completed : IdempotencyStatus

-- `status` is a number, or NaN (`none`); `null` is a body that is not there.
pub record Existing (Body : Type 0) : Type 0 where
  pub request_hash : Text
  pub status : IdempotencyStatus
  pub response_status : Option ℕ
  pub response_body : Option Body

-- What a claim ends in. `threw` is an error of a call, and `unfinished` the end of the fuel.
pub data ClaimResult (Body : Type 0) : Type 0 where
  claimed : (request_hash : Text) → ClaimResult Body
  existing : Existing Body → ClaimResult Body
  threw unfinished : ClaimResult Body

-- A different body, or the same while it is in flight: 409 with no body.
abbrev pub blocked : {Body : Type 0} → Text → ClaimResult Body
blocked request_hash = existing (record {
  request_hash = request_hash;
  status = in_progress;
  response_status = some 409;
  response_body = none;
})

-- A row of the table of idempotency keys (packages/db/prisma/schema.prisma).
pub record KeyRow (Body : Type 0) : Type 0 where
  pub user_id : Text
  pub key : Text
  pub request_hash : Text
  pub status : IdempotencyStatus
  pub response_status : Option ℕ
  pub response_body : Option Body
  pub created_at : ℕ
  pub expires_at : ℕ

abbrev pub redis_claim_key : Text → Text → Text
redis_claim_key user key = codes "idem:" ++ user ++ codes ":" ++ key

abbrev pub redis_res_key : Text → Text → Text
redis_res_key user key = codes "idem:" ++ user ++ codes ":" ++ key ++ codes ":res"

abbrev pub is_expired : ℕ → ℕ → Bool
is_expired expires_at now = leb expires_at now

abbrev pub is_in_progress : IdempotencyStatus → Bool
is_in_progress in_progress = true
is_in_progress completed = false

abbrev pub is_stale_in_progress : IdempotencyStatus → ℕ → ℕ → Bool
is_stale_in_progress status created_at now =
    is_in_progress status && ltb stale_in_progress_ms (now - created_at)

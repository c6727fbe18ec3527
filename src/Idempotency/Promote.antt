-- ===== src/Idempotency/Promote.antt =====
-- The job that brings Postgres up to date from Redis (apps/api/src/jobs/promoteIdempotencyKeys.ts). An error in
-- a round is logged and the next round begins: a body that is no JSON, and a status that is no number, which
-- the database refuses.
use kartit.Prelude.{ℕ, ◌+◌, ◌&&◌, Option, none, some, List, [], ◌∷◌, take, ltb, if◌then◌else◌}
use kartit.Prelude.Table.{Table}
use kartit.Shared.Text.{Text}
use kartit.Shared.Decimal.{number}
use kartit.Idempotency.{KeyRow, is_in_progress, redis_res_key}
use kartit.Idempotency.Redis.{RedisStore}
use kartit.Idempotency.Hot.{truthy, has_colon, before_colon, after_colon}
use kartit.Idempotency.Durable.{update_where, is_open_claim, complete_row}

module _ {R Body : Type 0} (redis : RedisStore R) (parse : Text → Option Body) where
  abbrev pub batch_size : ℕ
  batch_size = 500

  -- `findMany`: the user and the key of each.
  unfoldable pub open_keys : ℕ → Table (KeyRow Body) → List (Text × Text)
  open_keys now [] = []
  open_keys now ((id, row) ∷ rows) =
      let rest = open_keys now rows in
      if is_in_progress row.status && ltb now row.expires_at
      then (row.user_id, row.key) ∷ rest
      else rest

  abbrev pub promote_cached : Text → Text → Text → Table (KeyRow Body) → ℕ × Table (KeyRow Body)
  promote_cached user key cached rows = elim (number (before_colon cached)) [
    | none ↦ (0, rows)
    | some status ↦ elim (parse (after_colon cached)) [
      | none ↦ (0, rows)
      | some body ↦ (1, update_where (is_open_claim user key) (complete_row status body) rows)
    ]
  ]

  unfoldable pub promote_key : ℕ → R → Text → Text → Table (KeyRow Body) → ℕ × Table (KeyRow Body)
  promote_key now r user key rows = elim (truthy (redis.get now (redis_res_key user key) r)) [
    | none ↦ (0, rows)
    | some cached ↦ if has_colon cached then promote_cached user key cached rows else (0, rows)
  ]

  unfoldable pub promote_keys :
      ℕ → R → List (Text × Text) → Table (KeyRow Body) → ℕ × Table (KeyRow Body)
  promote_keys now r [] rows = (0, rows)
  promote_keys now r ((user, key) ∷ keys) rows =
      let (one, after) = promote_key now r user key rows in
      let (more, done) = promote_keys now r keys after in (one + more, done)

  unfoldable pub promote_idempotency_keys : ℕ → R → Table (KeyRow Body) → ℕ × Table (KeyRow Body)
  promote_idempotency_keys now r rows =
      promote_keys now r (take batch_size (open_keys now rows)) rows

-- ===== src/Idempotency/Durable.antt =====
-- The claim in Postgres (apps/api/src/middlewares/idempotency-postgres.ts). Whether a write that nobody waits
-- for, or whose error is caught, succeeds is an argument (`landed`). `empty_object` is `{}`.
use kartit.Prelude.{
  ℕ, Bool, true, false, not, ◌&&◌, ◌||◌, Option, none, some, List, [], ◌∷◌, if◌then◌else◌,
}
use kartit.Prelude.Table.{Table, find_where, insert, erase}
use kartit.Shared.Text.{Text, text_eq}
use kartit.Idempotency.{
  in_progress, completed, ClaimResult, claimed, existing, unfinished, blocked, KeyRow, is_expired,
  is_in_progress, is_stale_in_progress,
}

module _ {ℓ} {V : Type ℓ} where
  -- `updateMany` and `deleteMany`.
  unfoldable pub update_where : (V → Bool) → (V → V) → Table V → Table V
  update_where p f [] = []
  update_where p f ((id, v) ∷ t) = (id, if p v then f v else v) ∷ update_where p f t

  unfoldable pub delete_where : (V → Bool) → Table V → Table V
  delete_where p [] = []
  delete_where p ((id, v) ∷ t) = let rest = delete_where p t in if p v then rest else (id, v) ∷ rest

-- A round of `postgresPath`: whether the clean-up is through before `create`, what others commit
-- between `create` and `findUnique`, and whether the row is deleted.
pub record Round (Body : Type 0) : Type 0 where
  pub cleaned : Bool
  pub meanwhile : Table (KeyRow Body) → Table (KeyRow Body)
  pub deleted : Bool

abbrev pub or_default : {A : Type 0} → Option A → A → A
or_default none a = a
or_default (some b) a = b

module _ {Body : Type 0} where
  -- The unique pair `userId_key`.
  abbrev pub has_key : Text → Text → KeyRow Body → Bool
  has_key user key row = text_eq row.user_id user && text_eq row.key key

  abbrev pub is_recoverable : ℕ → KeyRow Body → Bool
  is_recoverable now row =
      is_expired row.expires_at now || is_stale_in_progress row.status row.created_at now

  unfoldable pub remove_recoverable_claim :
      Bool → ℕ → KeyRow Body → ℕ → Table (KeyRow Body) → Bool × Table (KeyRow Body)
  remove_recoverable_claim landed id row now rows =
      if is_recoverable now row
      then (true, if landed then erase id rows else rows)
      else (false, rows)

  unfoldable pub cleanup_recoverable_claims : Bool → ℕ → Table (KeyRow Body) → Table (KeyRow Body)
  cleanup_recoverable_claims landed now rows =
      if landed then delete_where (is_recoverable now) rows else rows

  abbrev pub new_row : Text → Text → Text → ℕ → ℕ → KeyRow Body
  new_row user key request_hash expires_at now = record {
    user_id = user;
    key = key;
    request_hash = request_hash;
    status = in_progress;
    response_status = none;
    response_body = none;
    created_at = now;
    expires_at = expires_at;
  }

  -- `create`, or `none` where the unique pair is taken (P2002).
  unfoldable pub create_row : ℕ → KeyRow Body → Table (KeyRow Body) → Option (Table (KeyRow Body))
  create_row id row rows = elim (find_where (has_key row.user_id row.key) rows) [
    | none ↦ some (insert id row rows)
    | some _ ↦ none
  ]

  abbrev pub answer_row : Body → Text → KeyRow Body → ClaimResult Body
  answer_row empty_object request_hash row =
      if not (text_eq row.request_hash request_hash)
      then blocked row.request_hash
      else if is_in_progress row.status
      then blocked request_hash
      else existing (record {
        request_hash = request_hash;
        status = completed;
        response_status = some (or_default row.response_status 200);
        response_body = some (or_default row.response_body empty_object);
      })

  -- `id` is the next id. The list of rounds is the fuel.
  unfoldable pub postgres_path :
      List (Round Body)
      → Body
      → ℕ
      → Text
      → Text
      → Text
      → ℕ
      → ℕ
      → Table (KeyRow Body)
      → ClaimResult Body × Table (KeyRow Body)
  postgres_path [] empty_object id user key request_hash expires_at now rows = (unfinished, rows)
  postgres_path (round ∷ rounds) empty_object id user key request_hash expires_at now rows =
      let again = postgres_path rounds empty_object id user key request_hash expires_at now in
      let cleaned = cleanup_recoverable_claims round.cleaned now rows in
      elim (create_row id (new_row user key request_hash expires_at now) cleaned) [
        | some created ↦ (claimed request_hash, created)
        | none ↦
            let seen = round.meanwhile cleaned in
            elim (find_where (has_key user key) seen) [
              | none ↦ again seen
              | some (found, row) ↦
                  let (removed, left) = remove_recoverable_claim round.deleted found row now seen in
                  if removed then again left else (answer_row empty_object request_hash row, left)
            ]
      ]

  unfoldable pub ensure_postgres_row :
      Bool → ℕ → Text → Text → Text → ℕ → ℕ → Table (KeyRow Body) → Table (KeyRow Body)
  ensure_postgres_row landed id user key request_hash expires_at now rows =
      if landed
      then or_default (create_row id (new_row user key request_hash expires_at now) rows) rows
      else rows

  abbrev pub complete_row : ℕ → Body → KeyRow Body → KeyRow Body
  complete_row status body row = record row {
    status = completed;
    response_status = some status;
    response_body = some body;
  }

  abbrev pub is_open_claim : Text → Text → KeyRow Body → Bool
  is_open_claim user key row = has_key user key row && is_in_progress row.status

  unfoldable pub update_postgres_completed :
      Bool → Text → Text → ℕ → Body → Table (KeyRow Body) → Table (KeyRow Body)
  update_postgres_completed landed user key status body rows =
      if landed then update_where (is_open_claim user key) (complete_row status body) rows else rows

  unfoldable pub delete_postgres_claim :
      Bool → Text → Text → Table (KeyRow Body) → Table (KeyRow Body)
  delete_postgres_claim landed user key rows =
      if landed then delete_where (has_key user key) rows else rows

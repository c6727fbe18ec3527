-- ===== src/Idempotency/Spec.antt =====
-- What the middleware promises of one key, with no store: a key is free, or its request is in work, or it has
-- been answered.
use kartit.Prelude.{ℕ, if◌then◌else◌}
use kartit.Shared.Text.{Text, text_eq}
use kartit.Idempotency.{ClaimResult, claimed, existing, blocked, completed}
use kartit.Prelude.{some}

pub data Claim (Body : Type 0) : Type 0 where
  free : Claim Body
  working : (request_hash : Text) → Claim Body
  answered : (request_hash : Text) (status : ℕ) (body : Body) → Claim Body

module _ {Body : Type 0} where
  abbrev pub replayed : Text → ℕ → Body → ClaimResult Body
  replayed request_hash status body = existing (record {
    request_hash = request_hash;
    status = completed;
    response_status = some status;
    response_body = some body;
  })

  -- A request with the hash arrives.
  abbrev pub arrive : Text → Claim Body → ClaimResult Body × Claim Body
  arrive h free = (claimed h, working h)
  arrive h (working held) = (if text_eq held h then blocked h else blocked held, working held)
  arrive h (answered held status body) =
      (if text_eq held h then replayed h status body else blocked held, answered held status body)

  -- The request in work ends with a success, or otherwise.
  abbrev pub succeed : ℕ → Body → Claim Body → Claim Body
  succeed status body free = free
  succeed status body (working held) = answered held status body
  succeed status body (answered held s b) = answered held s b

  abbrev pub release : Claim Body → Claim Body
  release c = free

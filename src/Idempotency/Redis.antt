-- ===== src/Idempotency/Redis.antt =====
-- The commands of Redis that the middleware uses, an interface: the server is not of this repository. The laws
-- are those of its documentation: a value set with EX is there until its time is over, other names are not
-- touched, and a value that is gone does not come back by itself. `Listed` is an instance of it.
pub mod Listed
use kartit.Prelude.{ℕ, ◌+◌, ◌*◌, ◌≤◌, ◌<◌, ◌≡◌, ◌≢◌, Option, none, some}
use kartit.Shared.Text.{Text}

pub record RedisStore (R : Type 0) : Type 0 where
  pub get : ℕ → Text → R → Option Text
  -- The time, the name, the value, and how many seconds it lives.
  pub set : ℕ → Text → Text → ℕ → R → R
  pub del : Text → R → R
  pub get-set :
      (now later : ℕ) (k v : Text) (ttl : ℕ) (r : R)
      → later < now + ttl * 1000
      → get later k (set now k v ttl r) ≡ some v
  pub get-set_ne :
      (now later : ℕ) (j k v : Text) (ttl : ℕ) (r : R)
      → j ≢ k
      → get later j (set now k v ttl r) ≡ get later j r
  pub get-del : (now : ℕ) (k : Text) (r : R) → get now k (del k r) ≡ none
  pub get-del_ne : (now : ℕ) (j k : Text) (r : R) → j ≢ k → get now j (del k r) ≡ get now j r
  pub stays_gone :
      (now later : ℕ) (k : Text) (r : R) → now ≤ later → get now k r ≡ none → get later k r ≡ none

-- ===== src/Idempotency/Once/Runs.antt =====
-- The runs of the middleware on the Redis path (apps/api/src/middlewares/idempotency.ts) against the
-- specification of one key.
use mathlib.Core.Path.{ap₂}
use kartit.Prelude.{
  ℕ, zero, suc, ◌+◌, ◌≤◌, ◌<◌, ◌≡◌, refl, ap, ◌∙◌, Bool, true, false, Bool-cases, inl, inr, Option,
  some, List, [], ◌∷◌, arith, length,
}
use kartit.Shared.Text.{Text, text_eq, text_eq_refl}
use kartit.Shared.Decimal.{is_nil, trim}
use kartit.Idempotency.{ttl_ms, blocked}
use kartit.Result.{app_error, idempotency_conflict}
use kartit.Idempotency.Redis.{RedisStore}
use kartit.Idempotency.Hot.{}
use kartit.Idempotency.Middleware.{
  Answer, Surroundings, Stores, Effect, no_effect, non_2xx, success, hook_json, hook_close, reply,
  redis_path, on_redis, run_effect, reply_existing, refused,
}
use kartit.Idempotency.Spec.{Claim, free, working, answered, arrive}
use kartit.Idempotency.Refines.{
  Stands, later, try_redis_claim-arrive, cache_redis_response-succeed, release_redis_claim-release,
}
use kartit.Idempotency.Once.{
  Event, request, responds, closes, run, spec_run, reply_run, reply_run-once, promised, settled,
  Fits, IsWorking, available, arrives-on_redis, arrives, ends, effect_on, count_running, releases,
}

some_round : (m : ℕ) → 1 ≤ m → (n : ℕ) × (m ≡ suc n)
some_round zero h = absurd (omega arith)
some_round (suc n) h = (n, refl)

module _ {R Body Json : Type 0} (redis : RedisStore R) (stringify : Body → Text)
    (parse : Text → Option Body) (empty_object : Body) (hash : Text → Text → Option Json → Text)
    (user raw_key : Text) where
  abbrev StandsFor : ℕ → ℕ → Stores R Body → Claim Body → Type 0
  StandsFor until now s c =
      Stands redis stringify parse user (trim raw_key) until now s.data_in_redis c

  abbrev ended : ℕ → Bool → Effect Body → Stores R Body → Stores R Body
  ended = ends redis stringify parse empty_object hash user raw_key

  abbrev answers : List (Event Body Json) → Stores R Body → List (Answer Body)
  answers = run redis stringify parse empty_object hash user raw_key

  abbrev spec_answers : List (Event Body Json) → Claim Body → List (Answer Body)
  spec_answers = spec_run redis stringify parse empty_object hash user raw_key

  abbrev reply_answers : List (Event Body Json) → Claim Body → List (Answer Body)
  reply_answers = reply_run redis stringify parse empty_object hash user raw_key

  abbrev FitsIn : ℕ → ℕ → Claim Body → List (Event Body Json) → Type 0
  FitsIn = Fits redis stringify parse empty_object hash user raw_key

  -- The end of the request in work, in the store and in the specification.
  ended-StandsFor :
      (until now t : ℕ) (in_postgres : Bool) (e : Effect Body) (c : Claim Body) (s : Stores R Body)
      → now ≤ t
      → until ≤ t + ttl_ms
      → IsWorking c
      → StandsFor until now s c
      → StandsFor until t (ended t in_postgres e s) (effect_on e c)
  unfolding run_effect
  ended-StandsFor until now t in_postgres e free s le lasts w stands = absurd w
  ended-StandsFor until now t in_postgres e (answered h status body) s le lasts w stands = absurd w
  ended-StandsFor until now t in_postgres no_effect (working h) s le lasts w stands =
      later redis stringify parse user (trim raw_key) until now t s.data_in_redis (working h) le
        stands
  ended-StandsFor until now t in_postgres non_2xx (working h) s le lasts w stands =
      release_redis_claim-release redis stringify parse user (trim raw_key) until t s.data_in_redis
  ended-StandsFor until now t in_postgres (success status body) (working h) s le lasts w stands =
      cache_redis_response-succeed redis stringify parse user (trim raw_key) until t h status body
        s.data_in_redis lasts
        (later redis stringify parse user (trim raw_key) until now t s.data_in_redis (working h) le
          stands)

  ended-breaker :
      (t : ℕ) (in_postgres : Bool) (e : Effect Body) (s : Stores R Body)
      → (ended t in_postgres e s).breaker ≡ s.breaker
  unfolding run_effect
  ended-breaker t in_postgres no_effect s = refl
  ended-breaker t in_postgres non_2xx s = refl
  ended-breaker t in_postgres (success status body) s = refl

  abbrev Arrived : ℕ → Surroundings Body → Text → Claim Body → Answer Body × Stores R Body → Type 0
  Arrived until around h c (answer, after) =
      (answer ≡ reply redis_path h (arrive h c).0)
      × StandsFor until (around.clock 0) after (arrive h c).1
      × (after.breaker.redis_available ≡ true)

  on_redis-Arrived :
      (until n : ℕ) (around : Surroundings Body) (h : Text) (c : Claim Body) (s : Stores R Body)
      → ((body : Body) → parse (stringify body) ≡ some body)
      → is_nil h ≡ false
      → around.claim_rounds ≡ suc n
      → (around.clock 0 ≤ around.clock 1)
        × (around.clock 1 ≤ around.clock 2)
        × (around.clock 2 < until)
        × (until ≤ around.clock 0 + ttl_ms)
      → s.breaker.redis_available ≡ true
      → StandsFor until (around.clock 0) s c
      → Arrived until around h c
          (on_redis redis stringify parse empty_object hash around user (trim raw_key) h s)
  unfolding on_redis
  on_redis-Arrived until n around h c s back filled rounds times served stands =
      let (same, still) =
        try_redis_claim-arrive redis stringify parse user (trim raw_key) until n around.clock h
          s.data_in_redis c back times filled stands in
      rw (on_redis, rounds) (ap (reply redis_path h) same, still, served)

  arrival :
      (until now : ℕ) (around : Surroundings Body) (body : Option Json) (c : Claim Body)
      (s : Stores R Body)
      → ((body : Body) → parse (stringify body) ≡ some body)
      → is_nil (hash user (trim raw_key) body) ≡ false
      → (is_nil (trim raw_key) ≡ false) × (length (trim raw_key) ≤ 255)
      → (around.clock 0 ≤ around.clock 1)
        × (around.clock 1 ≤ around.clock 2)
        × (around.clock 2 < until)
        × (until ≤ around.clock 0 + ttl_ms)
      → (around.ping_succeeds ≡ true) × (1 ≤ around.claim_rounds)
      → s.breaker.redis_available ≡ true
      → StandsFor until (around.clock 0) s c
      → Arrived until around
          (hash user (trim raw_key) body)
          c
          (arrives redis stringify parse empty_object hash user raw_key around body s)
  arrival until now around body c s back filled (named, short) times (pings, some_rounds) served
        stands =
      let (n, rounds) = some_round around.claim_rounds some_rounds in
      rw
        (arrives-on_redis redis stringify parse empty_object hash user raw_key around body s named
          short pings served)
        (on_redis-Arrived until n around (hash user (trim raw_key) body) c _ back filled rounds
          times
          (available redis stringify parse empty_object hash user raw_key around.now s.breaker
            served).1
          stands)

  run-reply_run :
      (until now : ℕ) (events : List (Event Body Json)) (c : Claim Body) (s : Stores R Body)
      → ((body : Body) → parse (stringify body) ≡ some body)
      → ((body : Option Json) → is_nil (hash user (trim raw_key) body) ≡ false)
      → is_nil (trim raw_key) ≡ false
      → length (trim raw_key) ≤ 255
      → until ≤ now + ttl_ms
      → s.breaker.redis_available ≡ true
      → StandsFor until now s c
      → FitsIn until now c events
      → answers events s ≡ reply_answers events c
  unfolding run reply_run Fits run_effect hook_close
  run-reply_run until now [] c s back filled named short lasts served stands fits = refl
  run-reply_run until now (request around body ∷ events) c s back filled named short lasts served
        stands fits =
      let (le, first, second, inside, pings, rounds, rest) = fits in
      let (same, still, open_next) =
        arrival until now around body c s back (filled body) (named, short)
          (first, second, inside, omega arith) (pings, rounds) served
          (later redis stringify parse user (trim raw_key) until now (around.clock 0)
            s.data_in_redis c le stands) in
      ap₂ ◌∷◌ same (
        run-reply_run until (around.clock 0) events _ _ back filled named short (omega arith)
          open_next still rest)
  run-reply_run until now (responds t in_postgres status body ∷ events) c s back filled named short
        lasts served stands (le, w, fits) =
      let e = hook_json false status body in
      run-reply_run until t events (effect_on e c) (ended t in_postgres e s) back filled named short
        (omega arith) (ap (λ b. b.redis_available) (ended-breaker t in_postgres e s) ∙ served)
        (ended-StandsFor until now t in_postgres e c s le (omega arith) w stands) fits
  run-reply_run until now (closes t in_postgres ∷ events) c s back filled named short lasts served
        stands (le, w, fits) =
      run-reply_run until t events free (ended t in_postgres non_2xx s) back filled named short
        (omega arith) served
        (ended-StandsFor until now t in_postgres non_2xx c s le (omega arith) w stands) fits

  reply-other :
      (h held : Text)
      → text_eq held h ≡ false
      → reply {Body = Body} redis_path h (blocked held)
        ≡ refused (app_error 409 idempotency_conflict)
  unfolding reply_existing
  reply-other h held e = rw e refl

  reply-promised : (h : Text) (c : Claim Body) → reply redis_path h (arrive h c).0 ≡ promised h c
  unfolding reply_existing promised
  reply-promised h free = refl
  reply-promised h (working held) = elim (Bool-cases (text_eq held h)) [
    | inl e ↦ rw (e, promised, text_eq_refl h, reply_existing) refl
    | inr e ↦ rw (e, promised) (reply-other h held e)
  ]
  reply-promised h (answered held status body) = elim (Bool-cases (text_eq held h)) [
    | inl e ↦ rw (e, promised, text_eq_refl h, reply_existing) refl
    | inr e ↦ rw (e, promised) (reply-other h held e)
  ]

  hook_json-settled :
      (status : ℕ) (body : Body) (c : Claim Body)
      → effect_on (hook_json false status body) c ≡ settled status body c
  unfolding hook_json settled
  hook_json-settled status body c = ground arith

  reply_run-spec_run :
      (events : List (Event Body Json)) (c : Claim Body)
      → reply_answers events c ≡ spec_answers events c
  unfolding reply_run spec_run hook_close
  reply_run-spec_run [] c = refl
  reply_run-spec_run (request around body ∷ events) c =
      let h = hash user (trim raw_key) body in
      ap₂ ◌∷◌ (reply-promised h c) (reply_run-spec_run events (arrive h c).1)
  reply_run-spec_run (responds t in_postgres status body ∷ events) c =
      ap (reply_answers events) (hook_json-settled status body c)
      ∙ reply_run-spec_run events (settled status body c)
  reply_run-spec_run (closes t in_postgres ∷ events) c = reply_run-spec_run events free

  -- Requests with one valid key, in a window of at most a day, from a time on at which Redis stands for a claim,
  -- are answered as the specification answers them. The conditions: Redis answers, its clock does not go
  -- back, the hooks' writes to it succeed, a response ends the request that is in work, no hash is
  -- empty, and a body is read back from its JSON text.
  pub run-spec_run :
      (until now : ℕ) (events : List (Event Body Json)) (c : Claim Body) (s : Stores R Body)
      → ((body : Body) → parse (stringify body) ≡ some body)
      → ((body : Option Json) → is_nil (hash user (trim raw_key) body) ≡ false)
      → is_nil (trim raw_key) ≡ false
      → length (trim raw_key) ≤ 255
      → until ≤ now + ttl_ms
      → s.breaker.redis_available ≡ true
      → StandsFor until now s c
      → FitsIn until now c events
      → answers events s ≡ spec_answers events c
  run-spec_run until now events c s back filled named short lasts served stands fits =
      run-reply_run until now events c s back filled named short lasts served stands fits
      ∙ reply_run-spec_run events c

  -- Of requests with one valid key, in a window of at most a day, from a time on at which Redis holds nothing
  -- under the key, the handler runs for at most one more than there are releases of the claim (by a
  -- response that is not a success, or by a connection that closes before its response). The conditions:
  -- Redis answers, its clock does not go back, the hooks' writes to it succeed, a response ends the
  -- request that is in work, no hash is empty, and a body is read back from its JSON text.
  pub run-once :
      (until now : ℕ) (events : List (Event Body Json)) (s : Stores R Body)
      → ((body : Body) → parse (stringify body) ≡ some body)
      → ((body : Option Json) → is_nil (hash user (trim raw_key) body) ≡ false)
      → is_nil (trim raw_key) ≡ false
      → length (trim raw_key) ≤ 255
      → until ≤ now + ttl_ms
      → s.breaker.redis_available ≡ true
      → StandsFor until now s free
      → FitsIn until now free events
      → count_running (answers events s)
        ≤ 1 + releases redis stringify parse empty_object hash user raw_key events
  run-once until now events s back filled named short lasts served stands fits =
      rw (run-reply_run until now events free s back filled named short lasts served stands fits)
        (reply_run-once redis stringify parse empty_object hash user raw_key events free)

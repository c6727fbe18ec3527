-- ===== src/Idempotency/Once.antt =====
-- Requests of one user with one key, and the ends of their responses, on the Redis path: a sequence of events,
-- each of which runs as a whole. A response ends in `res.json` or in `close` (`hook_json`, `hook_close`).
pub mod Runs
use kartit.Prelude.{
  ℕ, zero, suc, ◌+◌, ◌≤◌, ◌<◌, ◌≡◌, refl, sym, ap, ◌∙◌, Bool, true, false, not, Option, none, some,
  List, [], ◌∷◌, arith, length, ltb, leb, ◌==◌, if◌then◌else◌, inl, inr, ◌⊎◌, Bool-cases,
}
use kartit.Shared.Text.{Text, text_eq}
use kartit.Shared.Decimal.{is_nil, trim}
use kartit.Idempotency.{ttl_ms, ClaimResult, claimed, existing, threw, unfinished, blocked}
use kartit.Idempotency.Redis.{RedisStore}
use kartit.Idempotency.Hot.{Breaker, is_redis_available, try_redis_claim}
use kartit.Idempotency.Middleware.{
  Answer, running, reply, reply_existing, is_claimed, redis_path, Request, Surroundings, Stores,
  Landed, Effect, no_effect, non_2xx, success, hook_json, hook_close, idempotency, on_redis,
  run_effect, passed, refused, replay, crashed, stuck,
}
use kartit.Idempotency.Spec.{Claim, free, working, answered, arrive, succeed, release, replayed}
use kartit.Result.{app_error, idempotency_conflict, idempotency_in_progress}
use kartit.Idempotency.Refines.{
  Stands, try_redis_claim-arrive, cache_redis_response-succeed, release_redis_claim-release,
}

pub data Event (Body Json : Type 0) : Type 0 where
  request : Surroundings Body → Option Json → Event Body Json
  -- The time, whether the write in Postgres succeeds, the status and the body.
  responds : ℕ → Bool → ℕ → Body → Event Body Json
  closes : ℕ → Bool → Event Body Json

module _ {Body : Type 0} where
  -- The promised answer to a request with a hash: the first runs its handler, another body under the key is a
  -- conflict, and the same body is told to wait, or is given the answer that is kept.
  unfoldable pub promised : Text → Claim Body → Answer Body
  promised h free = running redis_path
  promised h (working held) =
      if text_eq held h
      then refused (app_error 409 idempotency_in_progress)
      else refused (app_error 409 idempotency_conflict)
  promised h (answered held status body) =
      if text_eq held h
      then replay (some status) (some body)
      else refused (app_error 409 idempotency_conflict)

  -- The claim after a response: a status from 200 to 299 is kept, with 0 counted as 200, and any other frees
  -- the key.
  unfoldable pub settled : ℕ → Body → Claim Body → Claim Body
  settled status body c =
      if status == 0
      then succeed 200 body c
      else if ltb status 200
      then release c
      else if leb status 299
      then succeed status body c
      else release c

  abbrev pub effect_on : Effect Body → Claim Body → Claim Body
  effect_on no_effect c = c
  effect_on non_2xx c = free
  effect_on (success status body) c = succeed status body c

  abbrev pub IsWorking : Claim Body → Type 0
  IsWorking free = ⊥
  IsWorking (working _) = Unit
  IsWorking (answered _ _ _) = ⊥

  abbrev pub is_running : Answer Body → ℕ
  is_running (running _) = 1
  is_running passed = 0
  is_running (refused _) = 0
  is_running (replay _ _) = 0
  is_running crashed = 0
  is_running stuck = 0

  unfoldable pub count_running : List (Answer Body) → ℕ
  count_running [] = 0
  count_running (a ∷ answers) = is_running a + count_running answers

  abbrev pub is_free : Claim Body → ℕ
  is_free free = 1
  is_free (working _) = 0
  is_free (answered _ _ _) = 0

  abbrev pub is_release : Effect Body → ℕ
  is_release no_effect = 0
  is_release non_2xx = 1
  is_release (success _ _) = 0

module _ {R Body Json : Type 0} (redis : RedisStore R) (stringify : Body → Text)
    (parse : Text → Option Body) (empty_object : Body) (hash : Text → Text → Option Json → Text)
    (user raw_key : Text) where
  abbrev pub key : Text
  key = trim raw_key

  abbrev pub arrives : Surroundings Body → Option Json → Stores R Body → Answer Body × Stores R Body
  arrives around body =
      idempotency redis stringify parse empty_object hash around
        (record { raw_key = some raw_key; user = some user; body = body })

  abbrev pub ends : ℕ → Bool → Effect Body → Stores R Body → Stores R Body
  ends t in_postgres effect =
      run_effect redis stringify parse empty_object hash redis_path
        (record { in_redis = true; in_postgres = in_postgres }) t user key effect

  -- The answers to the requests, in their order.
  unfoldable pub run : List (Event Body Json) → Stores R Body → List (Answer Body)
  run [] s = []
  run (request around body ∷ events) s =
      let (answer, after) = arrives around body s in answer ∷ run events after
  run (responds t in_postgres status body ∷ events) s =
      run events (ends t in_postgres (hook_json false status body) s)
  run (closes t in_postgres ∷ events) s = run events (ends t in_postgres (hook_close false) s)

  -- What the middleware promises: each request is answered as the specification says of the claim.
  unfoldable pub spec_run : List (Event Body Json) → Claim Body → List (Answer Body)
  spec_run [] c = []
  spec_run (request around body ∷ events) c =
      let h = hash user key body in promised h c ∷ spec_run events (arrive h c).1
  spec_run (responds t in_postgres status body ∷ events) c = spec_run events (settled status body c)
  spec_run (closes t in_postgres ∷ events) c = spec_run events (release c)

  -- The same with the middleware's own replies and hooks, over the claim in place of the stores.
  unfoldable pub reply_run : List (Event Body Json) → Claim Body → List (Answer Body)
  reply_run [] c = []
  reply_run (request around body ∷ events) c =
      let (result, after) = arrive (hash user key body) c in
      reply redis_path (hash user key body) result ∷ reply_run events after
  reply_run (responds t in_postgres status body ∷ events) c =
      reply_run events (effect_on (hook_json false status body) c)
  reply_run (closes t in_postgres ∷ events) c = reply_run events (effect_on (hook_close false) c)

  unfoldable pub releases : List (Event Body Json) → ℕ
  releases [] = 0
  releases (request around body ∷ events) = releases events
  releases (responds t in_postgres status body ∷ events) =
      is_release (hook_json false status body) + releases events
  releases (closes t in_postgres ∷ events) = suc (releases events)

  -- The events lie in the window in the order of their times, Redis answers, and a response ends the
  -- request that is in work.
  unfoldable pub Fits : ℕ → ℕ → Claim Body → List (Event Body Json) → Type 0
  Fits until now c [] = Unit
  Fits until now c (request around body ∷ events) =
      (now ≤ around.clock 0)
      × (around.clock 0 ≤ around.clock 1)
      × (around.clock 1 ≤ around.clock 2)
      × (around.clock 2 < until)
      × (around.ping_succeeds ≡ true)
      × (1 ≤ around.claim_rounds)
      × Fits until (around.clock 0) (arrive (hash user key body) c).1 events
  Fits until now c (responds t in_postgres status body ∷ events) =
      (now ≤ t) × IsWorking c × Fits until t (effect_on (hook_json false status body) c) events
  Fits until now c (closes t in_postgres ∷ events) =
      (now ≤ t) × IsWorking c × Fits until t free events

  not_running :
      (h : Text) (x : ClaimResult Body)
      → is_claimed x ≡ false
      → is_running (reply redis_path h x) ≡ 0
  unfolding reply_existing
  not_running h (claimed held) e = cc
  not_running h (existing found) e = ground arith
  not_running h threw e = refl
  not_running h unfinished e = refl

  neither_running :
      (b : Bool) (h : Text) (x y : ClaimResult Body)
      → is_claimed x ≡ false
      → is_claimed y ≡ false
      → is_running (reply redis_path h (if b then x else y)) ≡ 0
  neither_running true h x y e f = not_running h x e
  neither_running false h x y e f = not_running h y f

  effect-is_free :
      (e : Effect Body) (c : Claim Body) → is_free (effect_on e c) ≤ is_free c + is_release e
  effect-is_free no_effect c = omega arith
  effect-is_free non_2xx c = omega arith
  effect-is_free (success status body) free = omega arith
  effect-is_free (success status body) (working held) = omega arith
  effect-is_free (success status body) (answered held s b) = omega arith

  -- In the specification, every request that is let through after the first has a release before it.
  pub reply_run-once :
      (events : List (Event Body Json)) (c : Claim Body)
      → count_running (reply_run events c) ≤ is_free c + releases events
  unfolding reply_run releases count_running hook_close
  reply_run-once [] c = omega arith
  reply_run-once (request around body ∷ events) free =
      omega (arith, reply_run-once events (working (hash user key body)))
  reply_run-once (request around body ∷ events) (working held) =
      let h = hash user key body in
      let quiet = neither_running (text_eq held h) h (blocked h) (blocked held) refl refl in
      omega (arith, quiet, reply_run-once events (working held))
  reply_run-once (request around body ∷ events) (answered held status b) =
      let h = hash user key body in
      let quiet =
        neither_running (text_eq held h) h (replayed h status b) (blocked held) refl refl in
      omega (arith, quiet, reply_run-once events (answered held status b))
  reply_run-once (responds t in_postgres status body ∷ events) c =
      let effect = hook_json false status body in
      omega (arith, effect-is_free effect c, reply_run-once events (effect_on effect c))
  reply_run-once (closes t in_postgres ∷ events) c = omega (arith, reply_run-once events free)

  abbrev pub IsServed : Stores R Body → Type 0
  IsServed s = s.breaker.redis_available ≡ true

  pub available :
      (now : ℕ) (b : Breaker)
      → b.redis_available ≡ true
      → ((is_redis_available now true b).0 ≡ true)
        × ((is_redis_available now true b).1.redis_available ≡ true)
  unfolding is_redis_available
  available now b h = ground arith

  -- A request comes through to the claim in Redis.
  pub arrives-on_redis :
      (around : Surroundings Body) (body : Option Json) (s : Stores R Body)
      → is_nil key ≡ false
      → length key ≤ 255
      → around.ping_succeeds ≡ true
      → IsServed s
      → arrives around body s
        ≡ on_redis redis stringify parse empty_object hash around user key
            (hash user key body)
            (record s { breaker = (is_redis_available around.now true s.breaker).1 })
  unfolding idempotency
  arrives-on_redis around body s named short pings served =
      let fits : ltb 255 (length key) ≡ false = ground arith in
      let (open_now, _) = available around.now s.breaker served in
      rw (idempotency, named, fits, pings, open_now) refl

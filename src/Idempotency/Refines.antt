-- ===== src/Idempotency/Refines.antt =====
-- The claim in Redis implements the specification of one key.
pub mod Cached
use kartit.Prelude.{
  ℕ, suc, ◌+◌, ◌*◌, ◌≤◌, ◌<◌, ◌≡◌, ◌≢◌, refl, sym, ap, ◌∙◌, Bool, true, false, Option, none, some,
  [], ◌∷◌, ◌++◌, inl, inr, arith, length, length-append, if◌then◌else◌, Bool-cases,
}
use kartit.Shared.Text.{Text, codes, text_eq, text_eq_sound}
use kartit.Shared.Decimal.{is_nil}
use kartit.Idempotency.{
  ttl_ms, ttl_seconds, ClaimResult, claimed, blocked, redis_claim_key, redis_res_key,
}
use kartit.Idempotency.Redis.{RedisStore}
use kartit.Idempotency.Hot.{
  try_redis_claim, answer_same, cache_redis_response, release_redis_claim, cached_text, read_cached,
  truthy,
}
use kartit.Idempotency.Spec.{Claim, free, working, answered, arrive, succeed, release, replayed}
use Cached.{read_cached-cached_text, cached_text-filled}

pub keys_differ : (user key : Text) → redis_claim_key user key ≢ redis_res_key user key
keys_differ user key e =
    omega (arith, ap length e ∙ length-append (redis_claim_key user key) (codes ":res"))

truthy-filled : (s : Text) → is_nil s ≡ false → truthy (some s) ≡ some s
truthy-filled [] h = cc
truthy-filled (c ∷ s) h = refl

module _ {R Body : Type 0} (redis : RedisStore R) (stringify : Body → Text)
    (parse : Text → Option Body) (user key : Text) (until : ℕ) where
  -- What the two names hold at a time.
  abbrev pub Shows : ℕ → R → Claim Body → Type 0
  Shows t r free =
      (redis.get t (redis_claim_key user key) r ≡ none)
      × (redis.get t (redis_res_key user key) r ≡ none)
  Shows t r (working h) =
      (redis.get t (redis_claim_key user key) r ≡ some h)
      × (redis.get t (redis_res_key user key) r ≡ none)
      × (is_nil h ≡ false)
  Shows t r (answered h status body) =
      (redis.get t (redis_claim_key user key) r ≡ some h)
      × (redis.get t (redis_res_key user key) r
          ≡ some (cached_text redis stringify parse status body))
      × (is_nil h ≡ false)

  -- The store stands for the claim from one time on, up to the end of the window.
  abbrev pub Stands : ℕ → R → Claim Body → Type 0
  Stands now r c = (t : ℕ) → now ≤ t → t < until → Shows t r c

  Shows-truthy :
      (t : ℕ) (r : R) (h : Text)
      → redis.get t (redis_claim_key user key) r ≡ some h
      → is_nil h ≡ false
      → truthy (redis.get t (redis_claim_key user key) r) ≡ some h
  Shows-truthy t r h e filled = ap truthy e ∙ truthy-filled h filled

  answer_same-working :
      (t : ℕ) (r : R) (h : Text)
      → redis.get t (redis_res_key user key) r ≡ none
      → answer_same redis stringify parse t user key h r ≡ blocked h
  answer_same-working t r h e = rw (answer_same, e) refl

  answer_same-answered :
      (t : ℕ) (r : R) (h : Text) (status : ℕ) (body : Body)
      → parse (stringify body) ≡ some body
      → redis.get t (redis_res_key user key) r
        ≡ some (cached_text redis stringify parse status body)
      → answer_same redis stringify parse t user key h r ≡ replayed h status body
  answer_same-answered t r h status body back e =
      let filled = cached_text-filled redis stringify parse status body in
      rw (answer_same, e, truthy-filled _ filled)
        (read_cached-cached_text redis stringify parse h status body back)

  Claiming : (clock : ℕ → ℕ) (h : Text) → Type 0
  Claiming clock h =
      (clock 0 ≤ clock 1)
      × (clock 1 ≤ clock 2)
      × (clock 2 < until)
      × (until ≤ clock 0 + ttl_ms)
      × (is_nil h ≡ false)

  arrive-free :
      (n : ℕ) (clock : ℕ → ℕ) (h : Text) (r : R)
      → Claiming clock h
      → Stands (clock 0) r free
      → let (answer, after) = try_redis_claim redis stringify parse (suc n) clock user key h r in
        (answer ≡ claimed h) × Stands (clock 0) after (working h)
  unfolding try_redis_claim Claiming
  arrive-free n clock h r (first, second, inside, lasts, filled) stands =
      let now = clock 0 in
      let (no_claim, no_res) = stands now (omega arith) (omega arith) in
      let ck = redis_claim_key user key in
      let differ = keys_differ user key in
      rw (try_redis_claim, no_claim)
        (
          refl,
          λ t from_now before_end.
              let (_, still_none) = stands t from_now before_end in
              (
                redis.get-set now t ck h ttl_seconds r (omega arith),
                redis.get-set_ne now t (redis_res_key user key) ck h ttl_seconds r
                      (λ e. differ (sym e))
                    ∙ still_none,
                filled,
              ),
        )

  held_claim :
      (clock : ℕ → ℕ) (h held : Text) (n : ℕ) (r : R)
      → redis.get (clock 0) (redis_claim_key user key) r ≡ some held
      → redis.get (clock 1) (redis_claim_key user key) r ≡ some held
      → is_nil held ≡ false
      → try_redis_claim redis stringify parse (suc n) clock user key h r ≡ (
          if text_eq held h
          then (answer_same redis stringify parse (clock 2) user key h r, r)
          else (blocked held, r))
  unfolding try_redis_claim
  held_claim clock h held n r first second filled =
      rw (try_redis_claim, first, Shows-truthy (clock 1) r held second filled) refl

  arrive-working :
      (n : ℕ) (clock : ℕ → ℕ) (h held : Text) (r : R)
      → Claiming clock h
      → Stands (clock 0) r (working held)
      → try_redis_claim redis stringify parse (suc n) clock user key h r
        ≡ (if text_eq held h then blocked h else blocked held, r)
  unfolding Claiming
  arrive-working n clock h held r (first, second, inside, lasts, filled) stands =
      let (a, _, f) = stands (clock 0) (omega arith) (omega arith) in
      let (b, _, _) = stands (clock 1) (omega arith) (omega arith) in
      let (_, gone, _) = stands (clock 2) (omega arith) (omega arith) in
      held_claim clock h held n r a b f ∙ elim (Bool-cases (text_eq held h)) [
        | inl e ↦ rw e (ap (λ x. (x, r)) (answer_same-working (clock 2) r h gone))
        | inr e ↦ rw e refl
      ]

  arrive-answered :
      (n : ℕ) (clock : ℕ → ℕ) (h held : Text) (status : ℕ) (body : Body) (r : R)
      → parse (stringify body) ≡ some body
      → Claiming clock h
      → Stands (clock 0) r (answered held status body)
      → try_redis_claim redis stringify parse (suc n) clock user key h r
        ≡ (if text_eq held h then replayed h status body else blocked held, r)
  unfolding Claiming
  arrive-answered n clock h held status body r back (first, second, inside, lasts, filled) stands =
      let (a, _, f) = stands (clock 0) (omega arith) (omega arith) in
      let (b, _, _) = stands (clock 1) (omega arith) (omega arith) in
      let (_, kept, _) = stands (clock 2) (omega arith) (omega arith) in
      held_claim clock h held n r a b f ∙ elim (Bool-cases (text_eq held h)) [
        | inl e ↦ rw e (ap (λ x. (x, r)) (answer_same-answered (clock 2) r h status body back kept))
        | inr e ↦ rw e refl
      ]

  -- While the store stands for a claim, a request that arrives is answered as the specification says, in
  -- the first round already, and the store then stands for the claim that the specification gives.
  pub try_redis_claim-arrive :
      (n : ℕ) (clock : ℕ → ℕ) (h : Text) (r : R) (c : Claim Body)
      → ((body : Body) → parse (stringify body) ≡ some body)
      → (clock 0 ≤ clock 1) × (clock 1 ≤ clock 2) × (clock 2 < until) × (until ≤ clock 0 + ttl_ms)
      → is_nil h ≡ false
      → Stands (clock 0) r c
      → let (answer, after) = try_redis_claim redis stringify parse (suc n) clock user key h r in
        (answer ≡ (arrive h c).0) × Stands (clock 0) after (arrive h c).1
  unfolding Claiming
  try_redis_claim-arrive n clock h r free back (p, q, s, w) filled stands =
      arrive-free n clock h r (p, q, s, w, filled) stands
  try_redis_claim-arrive n clock h r (working held) back (p, q, s, w) filled stands =
      rw (arrive-working n clock h held r (p, q, s, w, filled) stands) (refl, stands)
  try_redis_claim-arrive n clock h r (answered held status body) back (p, q, s, w) filled stands =
      rw (arrive-answered n clock h held status body r (back body) (p, q, s, w, filled) stands)
        (refl, stands)

  pub later : (now t : ℕ) (r : R) (c : Claim Body) → now ≤ t → Stands now r c → Stands t r c
  later now t r c le stands = λ u from_t before_end. stands u (omega arith) before_end

  -- The response of the request in work is kept.
  pub cache_redis_response-succeed :
      (now : ℕ) (held : Text) (status : ℕ) (body : Body) (r : R)
      → until ≤ now + ttl_ms
      → Stands now r (working held)
      → Stands now
          (cache_redis_response redis stringify parse true now user key status body r)
          (succeed status body (working held))
  unfolding cache_redis_response
  cache_redis_response-succeed now held status body r lasts stands =
      let differ = keys_differ user key in
      λ t from_now before_end.
        let (claim, _, filled) = stands t from_now before_end in
        (
          redis.get-set_ne now t (redis_claim_key user key) (redis_res_key user key) _ ttl_seconds r
                differ
              ∙ claim,
          redis.get-set now t (redis_res_key user key) _ ttl_seconds r (omega arith),
          filled,
        )

  -- A release leaves both names empty, whatever they held.
  pub release_redis_claim-release :
      (now : ℕ) (r : R)
      → Stands now (release_redis_claim redis stringify parse true user key r) free
  unfolding release_redis_claim
  release_redis_claim-release now r =
      let differ = keys_differ user key in
      λ t from_now before_end. (
        redis.get-del_ne t (redis_claim_key user key) (redis_res_key user key) _ differ
            ∙ redis.get-del t (redis_claim_key user key) r,
        redis.get-del t (redis_res_key user key) _,
      )

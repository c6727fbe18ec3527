-- ===== src/RateLimit/Bounds.antt =====
-- How many requests a bucket lets through (apps/api/src/middlewares/rateLimiter.ts).
use native.Mathlib.Nat.{div-add-mod', mod-lt, mul-le-mul_right, add-mul}
use kartit.Prelude.{
  ℕ, ◌+◌, ◌-◌, ◌*◌, ◌≤◌, ◌<◌, ◌≡◌, refl, sym, ap, ◌∙◌, Bool, true, false, Option, none, some, List,
  [], ◌∷◌, arith, leb, ltb, if◌then◌else◌, inl, inr, Bool-cases,
}
use kartit.RateLimit.{
  Limits, Bucket, Verdict, ceil_div, full, price, ttl, read_bucket, refilled, take_token,
  fresh_bucket,
}

-- The requests that pass, of those at the times.
unfoldable pub passed : Limits → List ℕ → Option Bucket → ℕ
passed l [] bucket = 0
passed l (now ∷ times) bucket =
    let (verdict, after) = take_token l now bucket in
    (if verdict.allowed then 1 else 0) + passed l times (some after)

-- The times do not go back, from one on and up to another.
abbrev pub IsOrdered : ℕ → ℕ → List ℕ → Type 0
IsOrdered from until [] = Unit
IsOrdered from until (now ∷ times) = (from ≤ now) × (now ≤ until) × IsOrdered now until times

ceil_div-covers : (a b : ℕ) → 0 < b → a ≤ ceil_div a b * b
ceil_div-covers a b positive =
    omega (arith, div-add-mod' (a + (b - 1)) b, mod-lt (a + (b - 1)) positive)

-- A bucket whose hash has ended has been full for long.
ended-full :
    (l : Limits) (now last : ℕ)
    → 0 < l.rate_num
    → last + ttl l * 1000 ≤ now
    → full l ≤ (now - last) * l.rate_num
ended-full l now last positive h =
    let c = ceil_div (l.capacity * l.rate_den) l.rate_num in
    let covers = ceil_div-covers (l.capacity * l.rate_den) l.rate_num positive in
    let long : c * 1000 ≤ now - last = omega arith in
    let long_enough = mul-le-mul_right l.rate_num long in grind (arith, covers, long_enough)

gained : (r a b c : ℕ) → a ≤ b → b ≤ c → (b - a) * r + (c - b) * r ≡ (c - a) * r
gained r a b c h g = sym (add-mul (b - a) (c - b) r) ∙ ap (λ n. n * r) (omega arith)

-- A hash that the script has left: it ends a while after its last request.
abbrev IsLeft : Limits → Bucket → Type 0
IsLeft l b = b.ends ≡ b.last + ttl l * 1000

abbrev spent : Limits → Verdict → ℕ
spent l v = if v.allowed then price l else 0

refilled-last :
    (l : Limits) (now : ℕ) (b : Bucket)
    → 0 < l.rate_num
    → b.last ≤ now
    → (refilled l now b).last ≡ now
unfolding refilled
refilled-last l now b positive h = elim (Bool-cases (ltb 0 ((now - b.last) * l.rate_num))) [
  | inl e ↦ rw (refilled, e) refl
  | inr e ↦ rw (refilled, e) (grind arith)
]

refilled-tokens :
    (l : Limits) (now : ℕ) (b : Bucket)
    → (refilled l now b).tokens ≤ b.tokens + (now - b.last) * l.rate_num
unfolding refilled
refilled-tokens l now b = ground arith

fresh-tokens : (l : Limits) (now : ℕ) → (refilled l now (fresh_bucket l now)).tokens ≤ full l
fresh-tokens l now =
    let none_gone : now - now ≡ 0 = omega arith in
    let tokens = rw none_gone at (refilled-tokens l now (fresh_bucket l now)) in
    omega (arith, tokens)

-- Where the script starts from, in a bucket that was left.
start-bound :
    (l : Limits) (now : ℕ) (b : Bucket)
    → 0 < l.rate_num
    → IsLeft l b
    → b.last ≤ now
    → ((refilled l now (read_bucket l now (some b))).last ≡ now)
      × ((refilled l now (read_bucket l now (some b))).tokens
          ≤ b.tokens + (now - b.last) * l.rate_num)
unfolding read_bucket
start-bound l now b positive left h = elim (Bool-cases (ltb now b.ends)) [
  | inl e ↦ rw (read_bucket, e) (refilled-last l now b positive h, refilled-tokens l now b)
  | inr e ↦
      let enough = ended-full l now b.last positive (ground arith) in
      let tokens = fresh-tokens l now in
      rw (read_bucket, e)
        (
          refilled-last l now (fresh_bucket l now) positive (omega arith),
          omega (arith, tokens, enough),
        )
]

take_token-bound :
    (l : Limits) (now bound : ℕ) (bucket : Option Bucket)
    → (refilled l now (read_bucket l now bucket)).last ≡ now
    → (refilled l now (read_bucket l now bucket)).tokens ≤ bound
    → let (v, after) = take_token l now bucket in
      (after.last ≡ now) × IsLeft l after × (spent l v + after.tokens ≤ bound)
unfolding take_token
take_token-bound l now bound bucket last tokens =
    let b = refilled l now (read_bucket l now bucket) in
    elim (Bool-cases (leb (price l) b.tokens)) [
      | inl e ↦
          rw (take_token, e)
            (last, ap (λ n. n + ttl l * 1000) (sym last), covered b.tokens (ground arith) tokens)
      | inr e ↦
          rw (take_token, e) (last, ap (λ n. n + ttl l * 1000) (sym last), omega (arith, tokens))
    ]
  where
    covered : (n : ℕ) → price l ≤ n → n ≤ bound → price l + (n - price l) ≤ bound
    covered n h g = omega (arith, h, g)

one-price : (b : Bool) (p : ℕ) → (if b then 1 else 0) * p ≡ (if b then p else 0)
one-price true p = omega arith
one-price false p = omega arith

passed-price :
    (l : Limits) (now : ℕ) (times : List ℕ) (bucket : Option Bucket)
    → passed l (now ∷ times) bucket * price l
      ≡ spent l (take_token l now bucket).0
        + passed l times (some (take_token l now bucket).1) * price l
unfolding passed
passed-price l now times bucket =
    let v = (take_token l now bucket).0 in
    add-mul (if v.allowed then 1 else 0) (passed l times (some (take_token l now bucket).1))
      (price l)
    ∙ ap (λ n. n + passed l times (some (take_token l now bucket).1) * price l)
        (one-price v.allowed (price l))

passed-left :
    (l : Limits) (until : ℕ) (times : List ℕ) (b : Bucket)
    → 0 < l.rate_num
    → IsLeft l b
    → b.last ≤ until
    → IsOrdered b.last until times
    → passed l times (some b) * price l ≤ b.tokens + (until - b.last) * l.rate_num
unfolding passed
passed-left l until [] b positive left h ordered = omega arith
passed-left l until (now ∷ times) b positive left h (le, ge, ordered) =
    let bound = b.tokens + (now - b.last) * l.rate_num in
    let (at_now, tokens) = start-bound l now b positive left le in
    let (last, left', spending) = take_token-bound l now bound (some b) at_now tokens in
    let after = (take_token l now (some b)).1 in
    let rest = passed-left l until times after positive left' (rw last ge) (rw last ordered) in
    let rest' = rw last at rest in
    rw (passed-price l now times (some b))
      (omega (arith, rest', spending, gained l.rate_num b.last now until le ge))

-- Of requests for a bucket that has not been used, at times from a start to an end that do not go back, those
-- that are let through cost together no more than a full bucket and what is refilled in between.
pub passed-bound :
    (l : Limits) (start until : ℕ) (times : List ℕ)
    → 0 < l.rate_num
    → start ≤ until
    → IsOrdered start until times
    → passed l times none * price l ≤ full l + (until - start) * l.rate_num
unfolding passed read_bucket
passed-bound l start until [] positive h ordered = omega arith
passed-bound l start until (now ∷ times) positive h (le, ge, ordered) =
    let at_now = refilled-last l now (fresh_bucket l now) positive (omega arith) in
    let (last, left, spending) = take_token-bound l now (full l) none at_now (fresh-tokens l now) in
    let after = (take_token l now none).1 in
    let rest = passed-left l until times after positive left (rw last ge) (rw last ordered) in
    let rest' = rw last at rest in
    rw (passed-price l now times none)
      (omega (arith, rest', spending, gained l.rate_num start now until le ge))

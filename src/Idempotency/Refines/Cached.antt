-- ===== src/Idempotency/Refines/Cached.antt =====
-- A response as it is kept in Redis, and what a replay reads: `cacheRedisResponse` and `tryRedisClaim`.
use kartit.Prelude.{ℕ, ◌≡◌, refl, true, false, Option, some, [], ◌∷◌, ◌++◌, arith}
use kartit.Shared.Text.{Text}
use kartit.Shared.Decimal.{all_digits, is_nil, to_text, to_text-digits, big_int-to_text}
use kartit.Idempotency.Redis.{RedisStore}
use kartit.Idempotency.Hot.{
  has_colon, before_colon, after_colon, status_part, body_part, cached_text, read_cached,
}
use kartit.Idempotency.Spec.{replayed}

has_colon-mark : (w t : Text) → has_colon (w ++ (b':' ∷ t)) ≡ true
unfolding has_colon
has_colon-mark [] t = refl
has_colon-mark (c ∷ w) t = ground (arith, has_colon-mark w t)

before_colon-digits : (w t : Text) → all_digits w ≡ true → before_colon (w ++ (b':' ∷ t)) ≡ w
unfolding before_colon all_digits
before_colon-digits [] t h = refl
before_colon-digits (c ∷ w) t h = ground (arith, before_colon-digits w t)

after_colon-digits : (w t : Text) → all_digits w ≡ true → after_colon (w ++ (b':' ∷ t)) ≡ t
unfolding after_colon all_digits
after_colon-digits [] t h = refl
after_colon-digits (c ∷ w) t h = ground (arith, after_colon-digits w t)

status_part-mark : (w t : Text) → all_digits w ≡ true → status_part (w ++ (b':' ∷ t)) ≡ w
unfolding status_part
status_part-mark w t h = rw (has_colon-mark w t) (before_colon-digits w t h)

body_part-mark : (w t : Text) → all_digits w ≡ true → body_part (w ++ (b':' ∷ t)) ≡ t
unfolding body_part
body_part-mark w t h = rw (has_colon-mark w t) (after_colon-digits w t h)

filled-append : (w t : Text) → is_nil w ≡ false → is_nil (w ++ t) ≡ false
filled-append [] t h = cc
filled-append (c ∷ w) t h = refl

module _ {R Body : Type 0} (redis : RedisStore R) (stringify : Body → Text)
    (parse : Text → Option Body) where
  pub cached_text-filled :
      (status : ℕ) (body : Body) → is_nil (cached_text redis stringify parse status body) ≡ false
  cached_text-filled status body = filled-append (to_text status) _ (to_text-digits status).1

  -- A replay reads the status and the body that were kept, where reading a body's JSON text gives the body
  -- back.
  pub read_cached-cached_text :
      (h : Text) (status : ℕ) (body : Body)
      → parse (stringify body) ≡ some body
      → read_cached redis stringify parse h (cached_text redis stringify parse status body)
        ≡ replayed h status body
  unfolding read_cached
  read_cached-cached_text h status body back =
      let digits = (to_text-digits status).0 in
      rw
        (
          read_cached,
          body_part-mark (to_text status) (stringify body) digits,
          back,
          status_part-mark (to_text status) (stringify body) digits,
          digits,
          big_int-to_text status,
        )
        refl

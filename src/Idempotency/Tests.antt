-- ===== src/Idempotency/Tests.antt =====
-- The idempotency middleware on concrete requests. Bodies are texts, which are their own JSON, and `sha256` leaves
-- its text as it is.
use kartit.Prelude.{ℕ, ◌+◌, ◌≤◌, ◌≡◌, refl, true, false, Option, some, List, [], ◌∷◌, arith, length}
use kartit.Prelude.Table.{find_where, count, IsDistinct, find, erase}
use kartit.Result.{conflict, idempotency_conflict, idempotency_in_progress}
use kartit.Shared.Text.{Text, codes}
use kartit.Shared.Decimal.{
  is_nil, trim, trim_start, trim_end, to_text, emit_digits, scan, all_digits,
}
use kartit.Idempotency.{ttl_ms, claimed, KeyRow, redis_claim_key, redis_res_key}
use kartit.Idempotency.Hash.{
  Json, object, field, empty, figure, hash_request, hash_body, stable_stringify, shown_object,
  join_commas, sorted, insert_sorted, shown_keys, shown_value,
}
use kartit.Idempotency.Hash.Order.{swapped, stable_stringify-Reordered}
use kartit.Idempotency.Redis.Listed.{Entry, store, get, set, del}
use kartit.Idempotency.Hot.{
  cached_text, read_cached, has_colon, before_colon, after_colon, status_part, body_part,
  is_redis_available, try_redis_claim, cache_redis_response, release_redis_claim,
}
use kartit.Idempotency.Durable.{
  Round, has_key, postgres_path, new_row, create_row, cleanup_recoverable_claims,
  remove_recoverable_claim,
}
use kartit.Idempotency.Promote.{promote_idempotency_keys, promote_keys, promote_key, open_keys}
use kartit.Idempotency.Middleware.{
  Answer, running, refused, replay, redis_path, Surroundings, Stores, idempotency, on_redis,
  reply_existing, run_effect, hook_json, hook_close,
}
use kartit.Idempotency.Spec.{free, arrive, replayed}
use kartit.Idempotency.Refines.{Stands}
use kartit.Idempotency.Refines.Cached.{read_cached-cached_text}
use kartit.Idempotency.Rounds.{table_claim, postgres_path-arrive}
use kartit.Idempotency.Once.{
  Event, request, responds, closes, run, spec_run, Fits, count_running, releases,
}
use kartit.Idempotency.Once.Runs.{run-spec_run, run-once}

abbrev same_text : Text → Text
same_text s = s

abbrev test_hash : Text → Text → Option Json → Text
test_hash = hash_request same_text same_text

abbrev at_time : ℕ → Surroundings Text
at_time now = record {
  now = now;
  ping_succeeds = true;
  clock = λ n. now + n;
  claim_rounds = 1;
  postgres_rounds = [];
  row_landed = true;
  fresh = 1;
}

abbrev no_stores : Stores (List Entry) Text
no_stores = record {
  data_in_redis = [];
  rows = [];
  breaker = record { redis_available = true; last_redis_check = 0 };
}

abbrev order_body : Option Json
order_body = some (object (field (codes "id") (figure (codes "7")) empty))

abbrev other_body : Option Json
other_body = some (object (field (codes "id") (figure (codes "8")) empty))

-- A request, the same while it is in work, its answer, the same again, and another body.
abbrev retried : List (Event Text Json)
retried =
    request (at_time 1000) order_body
    ∷ request (at_time 2000) order_body
    ∷ responds 3000 true 201 (codes "made")
    ∷ request (at_time 4000) order_body
    ∷ request (at_time 5000) other_body
    ∷ []

abbrev run_here : List (Event Text Json) → List (Answer Text)
run_here events =
    run store same_text some (codes "{}") test_hash (codes "u") (codes " k ") events no_stores

retried_answers :
    run_here retried
    ≡ running redis_path
      ∷ refused (conflict idempotency_in_progress)
      ∷ replay (some 201) (some (codes "made"))
      ∷ refused (conflict idempotency_conflict)
      ∷ []
unfolding run idempotency trim_start trim_end is_redis_available on_redis try_redis_claim
    cache_redis_response release_redis_claim run_effect hook_json reply_existing get set del
    hash_request hash_body stable_stringify shown_object join_commas sorted insert_sorted shown_keys
    shown_value to_text emit_digits read_cached status_part body_part has_colon before_colon
    after_colon all_digits scan
retried_answers = refl

-- A connection that closes while its handler is still at work releases the claim, and the next request
-- runs the handler again.
abbrev closed_early : List (Event Text Json)
closed_early =
    request (at_time 1000) order_body ∷ closes 2000 true ∷ request (at_time 3000) order_body ∷ []

runs_twice : run_here closed_early ≡ running redis_path ∷ running redis_path ∷ []
unfolding run idempotency trim_start trim_end is_redis_available on_redis try_redis_claim
    cache_redis_response release_redis_claim run_effect hook_close reply_existing get set del
    hash_request hash_body stable_stringify shown_object join_commas sorted insert_sorted shown_keys
    shown_value
runs_twice = refl

-- The claim of one key lies where the response of another is kept.
names_meet : redis_claim_key (codes "u") (codes "k:res") ≡ redis_res_key (codes "u") (codes "k")
names_meet = refl

key_text : trim (codes " k ") ≡ codes "k"
unfolding trim_start trim_end
key_text = refl

abbrev window_end : ℕ
window_end = 1000 + ttl_ms

nothing_held : Stands store same_text some (codes "u") (trim (codes " k ")) window_end 1000 [] free
unfolding get
nothing_held = λ t after before. (refl, refl)

retried-Fits :
    Fits store same_text some
      (codes "{}")
      test_hash
      (codes "u")
      (codes " k ")
      window_end
      1000
      free
      retried
unfolding Fits hook_json
retried-Fits = (
  omega arith,
  omega arith,
  omega arith,
  omega arith,
  refl,
  omega arith,
  (
    omega arith,
    omega arith,
    omega arith,
    omega arith,
    refl,
    omega arith,
    (
      omega arith,
      tt,
      (
        omega arith,
        omega arith,
        omega arith,
        omega arith,
        refl,
        omega arith,
        (omega arith, omega arith, omega arith, omega arith, refl, omega arith, tt),
      ),
    ),
  ),
)

named : is_nil (trim (codes " k ")) ≡ false
unfolding trim_start trim_end
named = refl

short : length (trim (codes " k ")) ≤ 255
unfolding trim_start trim_end
short = omega arith

hash_filled :
    (body : Option Json) → is_nil (test_hash (codes "u") (trim (codes " k ")) body) ≡ false
unfolding hash_request
hash_filled body = refl

run-spec_run_example :
    run_here retried
    ≡ spec_run store same_text some (codes "{}") test_hash (codes "u") (codes " k ") retried free
run-spec_run_example =
    run-spec_run store same_text some (codes "{}") test_hash (codes "u") (codes " k ") window_end
      1000 retried free no_stores (λ body. refl) hash_filled named short (omega arith) refl
      nothing_held retried-Fits

run-once_example :
    count_running (run_here retried)
    ≤ 1 + releases store same_text some (codes "{}") test_hash (codes "u") (codes " k ") retried
run-once_example =
    run-once store same_text some (codes "{}") test_hash (codes "u") (codes " k ") window_end 1000
      retried no_stores (λ body. refl) hash_filled named short (omega arith) refl nothing_held
      retried-Fits

read_cached-cached_text_example :
    read_cached store same_text some
      (codes "h")
      (cached_text store same_text some 201 (codes "a:b"))
    ≡ replayed (codes "h") 201 (codes "a:b")
read_cached-cached_text_example =
    read_cached-cached_text store same_text some (codes "h") 201 (codes "a:b") refl

stable_stringify-Reordered_example :
    stable_stringify same_text (
      object
        (field (codes "b") (figure (codes "2")) (field (codes "a") (figure (codes "1")) empty)))
    ≡ stable_stringify same_text (
        object
          (field (codes "a") (figure (codes "1")) (field (codes "b") (figure (codes "2")) empty)))
stable_stringify-Reordered_example =
    stable_stringify-Reordered same_text
      (swapped (codes "b") (codes "a") (figure (codes "2")) (figure (codes "1")) empty refl)

-- A row that a crashed process left in work an hour ago.
abbrev stale_row : KeyRow Text
stale_row = new_row (codes "u") (codes "k") (codes "h") 90000000 0

abbrev quiet_round : Round Text
quiet_round = record { cleaned = false; meanwhile = λ rows. rows; deleted = true }

stale_unique :
    (count (has_key (codes "u") (codes "k")) ((1, stale_row) ∷ []) ≤ 1)
    × IsDistinct ((1, stale_row) ∷ [])
unfolding count IsDistinct find
stale_unique = (omega arith, (refl, tt))

stale_taken :
    postgres_path
      (quiet_round ∷ quiet_round ∷ [])
      (codes "{}")
      2
      (codes "u")
      (codes "k")
      (codes "h2")
      90000000
      3600000
      ((1, stale_row) ∷ [])
    ≡ (
      claimed (codes "h2"),
      (2, new_row (codes "u") (codes "k") (codes "h2") 90000000 3600000) ∷ [],
    )
unfolding postgres_path create_row cleanup_recoverable_claims remove_recoverable_claim find_where
    erase
stale_taken = refl

postgres_path-arrive_example :
    let (result, after) =
      postgres_path
        (quiet_round ∷ quiet_round ∷ [])
        (codes "{}")
        2
        (codes "u")
        (codes "k")
        (codes "h2")
        90000000
        3600000
        ((1, stale_row) ∷ []) in
    let claim = table_claim (codes "{}") (codes "u") (codes "k") 3600000 ((1, stale_row) ∷ []) in
    (result ≡ (arrive (codes "h2") claim).0)
    × (table_claim (codes "{}") (codes "u") (codes "k") 3600000 after
        ≡ (arrive (codes "h2") claim).1)
postgres_path-arrive_example =
    postgres_path-arrive (codes "{}") (codes "u") (codes "k") 3600000 quiet_round quiet_round [] 2
      (codes "h2") 90000000 ((1, stale_row) ∷ []) (λ rows. refl, refl) (omega arith) stale_unique

-- A response that is in Redis alone is written to Postgres.
promoted :
    (promote_idempotency_keys store some 2000
      (set 1000 (redis_res_key (codes "u") (codes "k")) (codes "201:made") 86400 [])
      ((1, stale_row) ∷ [])).0
    ≡ 1
unfolding promote_idempotency_keys promote_keys promote_key open_keys get set has_colon before_colon
    after_colon all_digits scan
promoted = refl

-- ===== src/Idempotency/Redis/Listed.antt =====
-- Redis as a list of names, values and the times at which they end: an instance of the interface.
use kartit.Prelude.{
  ℕ, ◌+◌, ◌*◌, ◌≤◌, ◌<◌, ◌≡◌, ◌≢◌, refl, sym, false, Option, none, some, List, [], ◌∷◌, arith, ltb,
  if◌then◌else◌, inl, inr, Bool-cases,
}
use kartit.Shared.Text.{Text, text_eq, text_eq_refl, text_eq_sound}
use kartit.Idempotency.Redis.{RedisStore}

pub record Entry : Type 0 where
  pub name : Text
  pub value : Text
  pub ends : ℕ

unfoldable pub get : ℕ → Text → List Entry → Option Text
get now k [] = none
get now k (e ∷ r) =
    let rest = get now k r in
    if text_eq k e.name then (if ltb now e.ends then some e.value else none) else rest

unfoldable pub del : Text → List Entry → List Entry
del k [] = []
del k (e ∷ r) = let rest = del k r in if text_eq k e.name then rest else e ∷ rest

unfoldable pub set : ℕ → Text → Text → ℕ → List Entry → List Entry
set now k v ttl r = record { name = k; value = v; ends = now + ttl * 1000 } ∷ r

pub get-set :
    (now later : ℕ) (k v : Text) (ttl : ℕ) (r : List Entry)
    → later < now + ttl * 1000
    → get later k (set now k v ttl r) ≡ some v
unfolding get set
get-set now later k v ttl r h = ground (arith, text_eq_refl k)

differ : (j k : Text) → j ≢ k → text_eq j k ≡ false
differ j k h = elim (Bool-cases (text_eq j k)) [
  | inl e ↦ absurd (h (text_eq_sound j k e))
  | inr e ↦ e
]

pub get-set_ne :
    (now later : ℕ) (j k v : Text) (ttl : ℕ) (r : List Entry)
    → j ≢ k
    → get later j (set now k v ttl r) ≡ get later j r
unfolding get set
get-set_ne now later j k v ttl r h = rw (differ j k h) refl

pub get-del : (now : ℕ) (k : Text) (r : List Entry) → get now k (del k r) ≡ none
unfolding get del
get-del now k [] = refl
get-del now k (e ∷ r) = ground (arith, get-del now k r)

pub get-del_ne : (now : ℕ) (j k : Text) (r : List Entry) → j ≢ k → get now j (del k r) ≡ get now j r
unfolding get del
get-del_ne now j k [] h = refl
get-del_ne now j k (e ∷ r) h = elim (Bool-cases (text_eq k e.name)) [
  | inl same ↦
      let other : text_eq j e.name ≡ false =
        rw (sym (text_eq_sound k e.name same)) (differ j k h) in
      rw (same, other, get) (get-del_ne now j k r h)
  | inr other ↦ ground (arith, get-del_ne now j k r h)
]

pub stays_gone :
    (now later : ℕ) (k : Text) (r : List Entry)
    → now ≤ later
    → get now k r ≡ none
    → get later k r ≡ none
unfolding get
stays_gone now later k [] le h = refl
stays_gone now later k (e ∷ r) le h = ground (arith, stays_gone now later k r le)

abbrev pub store : RedisStore (List Entry)
store = record {
  get = get;
  set = set;
  del = del;
  get-set = get-set;
  get-set_ne = get-set_ne;
  get-del = get-del;
  get-del_ne = get-del_ne;
  stays_gone = stays_gone;
}

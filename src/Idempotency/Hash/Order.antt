-- ===== src/Idempotency/Hash/Order.antt =====
-- The order of keys does not show in the text that stableStringify makes
-- (apps/api/src/middlewares/idempotency-helpers.ts).
use kartit.Prelude.{
  ◌≡◌, refl, sym, ap, ◌∙◌, subst, true, false, List, [], ◌∷◌, map, arith, if◌then◌else◌, inl, inr,
  Bool-cases,
}
use kartit.Shared.Text.{Text, text_eq, text_eq_sound}
use kartit.Idempotency.Hash.{
  Json, object, Fields, field, before, insert_sorted, sorted, Shown, shown_keys, shown_value,
  shown_field, shown_object, stable_stringify, stringify_fields,
}

before_total : (s t : Text) → before s t ≡ false → before t s ≡ true
before_total [] t h = cc
before_total (a ∷ s) [] h = refl
before_total (a ∷ s) (b ∷ t) h = ground (arith, before_total s t)

before_antisym : (s t : Text) → before s t ≡ true → before t s ≡ true → s ≡ t
before_antisym [] [] h g = refl
before_antisym [] (b ∷ t) h g = cc
before_antisym (a ∷ s) [] h g = cc
before_antisym (a ∷ s) (b ∷ t) h g =
    let same : a ≡ b = ground arith in
    let rest : s ≡ t = before_antisym s t (ground arith) (ground arith) in cc

before_trans : (s t u : Text) → before s t ≡ true → before t u ≡ true → before s u ≡ true
before_trans [] t u h g = refl
before_trans (a ∷ s) [] u h g = cc
before_trans (a ∷ s) (b ∷ t) [] h g = cc
before_trans (a ∷ s) (b ∷ t) (c ∷ u) h g = ground (arith, before_trans s t u)

insert_sorted_comm :
    (a b : Text) (keys : List Text)
    → insert_sorted a (insert_sorted b keys) ≡ insert_sorted b (insert_sorted a keys)
unfolding insert_sorted
insert_sorted_comm a b [] = ground (arith, before_total a b, before_antisym a b)
insert_sorted_comm a b (c ∷ keys) = elim (Bool-cases (before a b)) [
  | inl ab ↦ elim (Bool-cases (before b a)) [
    | inl ba ↦
        subst
          (λ t.
            insert_sorted a (insert_sorted t (c ∷ keys))
            ≡ insert_sorted t (insert_sorted a (c ∷ keys)))
          (before_antisym a b ab ba) refl
    | inr ba ↦ ground (arith, insert_sorted_comm a b keys, before_trans a b c)
  ]
  | inr ab ↦
      let ba = before_total a b ab in
      ground (arith, insert_sorted_comm a b keys, before_trans b a c)
]

-- The same fields in another order: neighbours of different names change places.
pub data Reordered : Fields → Fields → Type 0 where
  unchanged : (fields : Fields) → Reordered fields fields
  swapped :
      (j k : Text) (x y : Json) (fields : Fields)
      → text_eq j k ≡ false
      → Reordered (field j x (field k y fields)) (field k y (field j x fields))
  below :
      (k : Text) (x : Json) {f g : Fields} → Reordered f g → Reordered (field k x f) (field k x g)
  after : {f g h : Fields} → Reordered f g → Reordered g h → Reordered f h

-- Every name has the same text, and the sorted names are the same.
Same : Shown → Shown → Type 0
Same xs ys =
    ((k : Text) → shown_value k xs ≡ shown_value k ys)
    × (sorted (shown_keys xs) ≡ sorted (shown_keys ys))

distinct_names : (i j k : Text) → text_eq j k ≡ false → text_eq i j ≡ true → text_eq i k ≡ false
distinct_names i j k apart e = subst (λ n. text_eq n k ≡ false) (sym (text_eq_sound i j e)) apart

swap-Same :
    (j k v w : Text) (xs : Shown)
    → text_eq j k ≡ false
    → Same ((j, v) ∷ (k, w) ∷ xs) ((k, w) ∷ (j, v) ∷ xs)
unfolding Same shown_value shown_keys sorted
swap-Same j k v w xs apart = (
  λ i. ground (arith, distinct_names i j k apart),
  insert_sorted_comm j k (sorted (shown_keys xs)),
)

cons-Same : (k v : Text) (xs ys : Shown) → Same xs ys → Same ((k, v) ∷ xs) ((k, v) ∷ ys)
unfolding Same shown_value shown_keys sorted
cons-Same k v xs ys (values, keys) =
    (λ i. ap (λ rest. if text_eq i k then v else rest) (values i), ap (insert_sorted k) keys)

module _ (quote : Text → Text) where
  map-shown_field :
      (xs ys : Shown) (keys : List Text)
      → ((k : Text) → shown_value k xs ≡ shown_value k ys)
      → map (shown_field quote xs) keys ≡ map (shown_field quote ys) keys
  map-shown_field xs ys [] h = refl
  map-shown_field xs ys (k ∷ keys) h = ground (arith, h k, map-shown_field xs ys keys)

  shown_object-Same : (xs ys : Shown) → Same xs ys → shown_object quote xs ≡ shown_object quote ys
  unfolding Same shown_object
  shown_object-Same xs ys (values, keys) =
      rw (keys, map-shown_field xs ys (sorted (shown_keys ys)) values) refl

  Reordered-Same :
      {f g : Fields} → Reordered f g → Same (stringify_fields quote f) (stringify_fields quote g)
  unfolding Same stable_stringify
  Reordered-Same (unchanged fields) = (λ k. refl, refl)
  Reordered-Same (swapped j k x y fields apart) = swap-Same j k _ _ _ apart
  Reordered-Same (below k x r) = cons-Same k _ _ _ (Reordered-Same r)
  Reordered-Same (after r q) =
      let (a, b) = Reordered-Same r in let (c, d) = Reordered-Same q in (λ k. a k ∙ c k, b ∙ d)

  -- Two objects with the same fields in another order have the same text.
  pub stable_stringify-Reordered :
      {f g : Fields}
      → Reordered f g
      → stable_stringify quote (object f) ≡ stable_stringify quote (object g)
  unfolding stable_stringify
  stable_stringify-Reordered {f} {g} r =
      shown_object-Same (stringify_fields quote f) (stringify_fields quote g) (Reordered-Same r)

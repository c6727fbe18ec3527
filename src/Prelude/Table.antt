-- ===== src/Prelude/Table.antt =====
-- A database table: rows under their primary key, in the order of their creation.
use Prim.Native.Nat.{ℕ, ◌+◌}
use mathlib.Core.Path.{◌≡◌, refl, sym, ◌∙◌}
use mathlib.Core.Bool.{Bool, false}
use mathlib.Core.Logic.{◌≢◌, inl, inr}
use mathlib.Core.List.{List, [], ◌∷◌, ◌++◌}
use mathlib.Core.Option.{Option, none, some}
use mathlib.Core.Option
use native.Mathlib.Omega.{arith}
use kartit.Prelude.Tests.{◌==◌, if◌then◌else◌, Bool-cases, none≢some}
use kartit.Prelude.Int.{ℤ, pos, ◌+ℤ◌, int_laws}

abbrev pub Table {ℓ} : Type ℓ → Type ℓ
Table V = List (ℕ × V)

module _ {ℓ} {V : Type ℓ} where
  -- `findUnique` by the key.
  unfoldable pub find : ℕ → Table V → Option V
  find k [] = none
  find k ((j, v) ∷ t) = if k == j then some v else find k t

  -- The row under the key rewritten; nothing where there is none.
  unfoldable pub modify : ℕ → (V → V) → Table V → Table V
  modify k f [] = []
  modify k f ((j, v) ∷ t) = if k == j then (j, f v) ∷ t else (j, v) ∷ modify k f t

  -- `create`.
  abbrev pub insert : ℕ → V → Table V → Table V
  insert k v t = t ++ ((k, v) ∷ [])

  -- `delete` by the key.
  unfoldable pub erase : ℕ → Table V → Table V
  erase k [] = []
  erase k ((j, v) ∷ t) = if k == j then t else (j, v) ∷ erase k t

  -- The first row that satisfies the test, with its key.
  unfoldable pub find_where : (V → Bool) → Table V → Option (ℕ × V)
  find_where p [] = none
  find_where p ((j, v) ∷ t) = if p v then some (j, v) else find_where p t

  -- `count`.
  unfoldable pub count : (V → Bool) → Table V → ℕ
  count p [] = 0
  count p ((j, v) ∷ t) = (if p v then 1 else 0) + count p t

  pub count-insert :
      (p : V → Bool) (k : ℕ) (v : V) (t : Table V)
      → count p (insert k v t) ≡ count p t + (if p v then 1 else 0)
  unfolding count
  count-insert p k v [] = omega arith
  count-insert p k v ((j, u) ∷ t) = omega (arith, count-insert p k v t)

  pub find-modify :
      (j k : ℕ) (f : V → V) (t : Table V)
      → find j (modify k f t) ≡ (if j == k then Option.map f (find j t) else find j t)
  unfolding find modify
  find-modify j k f [] = ground arith
  find-modify j k f ((i, v) ∷ t) = ground (arith, find-modify j k f t)

  pub find-modify_self :
      (k : ℕ) (f : V → V) (t : Table V) (v : V)
      → find k t ≡ some v
      → find k (modify k f t) ≡ some (f v)
  unfolding find modify
  find-modify_self k f [] v h = cc
  find-modify_self k f ((i, w) ∷ t) v h = ground (arith, find-modify_self k f t v)

  pub find-insert_ne : (j k : ℕ) (v : V) (t : Table V) → j ≢ k → find j (insert k v t) ≡ find j t
  unfolding find
  find-insert_ne j k v [] h = ground arith
  find-insert_ne j k v ((i, w) ∷ t) h = ground (arith, find-insert_ne j k v t h)

  pub find-insert_self :
      (k : ℕ) (v : V) (t : Table V) → find k t ≡ none → find k (insert k v t) ≡ some v
  unfolding find
  find-insert_self k v [] h = ground arith
  find-insert_self k v ((i, w) ∷ t) h = ground (arith, find-insert_self k v t)

  -- A sum over the rows of a table.
  unfoldable pub sum_by : (V → ℤ) → Table V → ℤ
  sum_by w [] = pos 0
  sum_by w ((_, v) ∷ t) = w v +ℤ sum_by w t

  pub sum_by-insert :
      (w : V → ℤ) (k : ℕ) (v : V) (t : Table V) → sum_by w (insert k v t) ≡ sum_by w t +ℤ w v
  unfolding sum_by
  sum_by-insert w k v [] = omega int_laws
  sum_by-insert w k v ((i, u) ∷ t) = grind (int_laws, sum_by-insert w k v t)

  pub sum_by-modify :
      (w : V → ℤ) (k : ℕ) (f : V → V) (v : V) (t : Table V)
      → find k t ≡ some v
      → sum_by w (modify k f t) +ℤ w v ≡ sum_by w t +ℤ w (f v)
  unfolding sum_by find modify
  sum_by-modify w k f v [] h = cc
  sum_by-modify w k f v ((i, u) ∷ t) h = grind (int_laws, sum_by-modify w k f v t)

  -- A primary key: no two rows have the same.
  unfoldable pub IsDistinct : Table V → Type ℓ
  IsDistinct [] = Unit
  IsDistinct ((k, _) ∷ t) = (find k t ≡ none) × IsDistinct t

  find-modify-none :
      (j k : ℕ) (f : V → V) (t : Table V) → find j t ≡ none → find j (modify k f t) ≡ none
  find-modify-none j k f t h = ground (arith, find-modify j k f t)

  pub IsDistinct-modify :
      (k : ℕ) (f : V → V) (t : Table V) → IsDistinct t → IsDistinct (modify k f t)
  unfolding IsDistinct modify
  IsDistinct-modify k f [] d = tt
  IsDistinct-modify k f ((j, v) ∷ t) d =
      ground (arith, IsDistinct-modify k f t d.1, find-modify-none j k f t d.0)

  find-cons_none :
      (j k : ℕ) (u : V) (t : Table V)
      → find k ((j, u) ∷ t) ≡ none
      → ((k == j) ≡ false) × (find k t ≡ none)
  unfolding find
  find-cons_none j k u t n = elim (Bool-cases (k == j)) [
    | inl e ↦ absurd (none≢some {a = u} (sym n ∙ rw e))
    | inr e ↦ (e, rw e at n)
  ]

  pub IsDistinct-insert :
      (k : ℕ) (v : V) (t : Table V) → find k t ≡ none → IsDistinct t → IsDistinct (insert k v t)
  unfolding IsDistinct find
  IsDistinct-insert k v [] n d = (refl, tt)
  IsDistinct-insert k v ((j, u) ∷ t) n d =
      let (ne, absent) = find-cons_none j k u t n in
      (find-insert_ne j k v t (ground arith) ∙ d.0, IsDistinct-insert k v t absent d.1)

  pub find_where-known :
      (test : V → Bool) (k : ℕ) (p : V) (t : Table V)
      → find_where test t ≡ some (k, p)
      → find k t ≢ none
  unfolding find find_where
  find_where-known test k p [] e = λ h. ground arith
  find_where-known test k p ((j, x) ∷ t) e = λ h. elim (Bool-cases (test x)) [
    | inl f ↦ ground arith
    | inr f ↦ elim (Bool-cases (k == j)) [
      | inl g ↦ ground arith
      | inr g ↦ find_where-known test k p t (ground arith) (ground arith)
    ]
  ]

  pub find_where-modify :
      (test : V → Bool) (k : ℕ) (f : V → V) (p : V) (t : Table V)
      → ((x : V) → test (f x) ≡ test x)
      → IsDistinct t
      → find_where test t ≡ some (k, p)
      → find_where test (modify k f t) ≡ some (k, f p)
  unfolding find_where modify IsDistinct
  find_where-modify test k f p [] same d e = absurd (ground arith)
  find_where-modify test k f p ((j, x) ∷ t) same d e = elim (Bool-cases (test x)) [
    | inl h ↦ ground (arith, same x)
    | inr h ↦ elim (Bool-cases (k == j)) [
      | inl g ↦
          let here : k ≡ j = ground arith in
          absurd (find_where-known test k p t (ground arith) (rw here d.0))
      | inr g ↦ ground (arith, same x, find_where-modify test k f p t same d.1)
    ]
  ]

-- ===== src/Idempotency/Rounds/Rows.antt =====
-- Deletion of rows by a test, where at most one row passes another test.
use kartit.Prelude.{
  ℕ, ◌≤◌, ◌≡◌, refl, Bool, true, none, some, [], ◌∷◌, arith, ◌==◌, if◌then◌else◌, inl, inr,
  Bool-cases,
}
use kartit.Prelude.Table.{
  Table, find, find_where, count, insert, erase, IsDistinct, find_where-known,
}
use kartit.Idempotency.Durable.{delete_where}

module _ {ℓ} {V : Type ℓ} where
  pub find_where-count_zero : (p : V → Bool) (t : Table V) → count p t ≡ 0 → find_where p t ≡ none
  unfolding find_where count
  find_where-count_zero p [] h = refl
  find_where-count_zero p ((id, v) ∷ t) h = ground (arith, find_where-count_zero p t)

  pub count-delete_where : (p q : V → Bool) (t : Table V) → count p (delete_where q t) ≤ count p t
  unfolding delete_where count
  count-delete_where p q [] = omega arith
  count-delete_where p q ((id, v) ∷ t) = ground (arith, count-delete_where p q t)

  pub find_where-delete_none :
      (p q : V → Bool) (t : Table V)
      → find_where p t ≡ none
      → find_where p (delete_where q t) ≡ none
  unfolding find_where delete_where
  find_where-delete_none p q [] h = refl
  find_where-delete_none p q ((id, v) ∷ t) h = ground (arith, find_where-delete_none p q t)

  pub find_where-delete_some :
      (p q : V → Bool) (t : Table V) (id : ℕ) (v : V)
      → count p t ≤ 1
      → find_where p t ≡ some (id, v)
      → find_where p (delete_where q t) ≡ (if q v then none else some (id, v))
  unfolding find_where delete_where count
  find_where-delete_some p q [] id v h e = cc
  find_where-delete_some p q ((j, u) ∷ t) id v h e = elim (Bool-cases (p u)) [
    | inl here ↦
        let gone = find_where-delete_none p q t (find_where-count_zero p t (ground arith)) in
        ground (arith, gone)
    | inr not_here ↦ ground (arith, find_where-delete_some p q t id v)
  ]

  find-delete_none :
      (k : ℕ) (q : V → Bool) (t : Table V) → find k t ≡ none → find k (delete_where q t) ≡ none
  unfolding find delete_where
  find-delete_none k q [] h = refl
  find-delete_none k q ((id, v) ∷ t) h = ground (arith, find-delete_none k q t)

  pub IsDistinct-delete_where :
      (q : V → Bool) (t : Table V) → IsDistinct t → IsDistinct (delete_where q t)
  unfolding IsDistinct delete_where
  IsDistinct-delete_where q [] d = tt
  IsDistinct-delete_where q ((id, v) ∷ t) d = elim (Bool-cases (q v)) [
    | inl e ↦ rw (e, delete_where) (IsDistinct-delete_where q t d.1)
    | inr e ↦ rw (e, delete_where) (find-delete_none id q t d.0, IsDistinct-delete_where q t d.1)
  ]

  find_where-erase-none :
      (p : V → Bool) (k : ℕ) (t : Table V) → find_where p t ≡ none → find_where p (erase k t) ≡ none
  unfolding find_where erase
  find_where-erase-none p k [] h = refl
  find_where-erase-none p k ((id, v) ∷ t) h = ground (arith, find_where-erase-none p k t)

  -- The only row that passes the test is deleted by its key.
  pub find_where-erase_found :
      (p : V → Bool) (t : Table V) (id : ℕ) (v : V)
      → IsDistinct t
      → count p t ≤ 1
      → find_where p t ≡ some (id, v)
      → find_where p (erase id t) ≡ none
  unfolding find_where erase count IsDistinct
  find_where-erase_found p [] id v d h e = cc
  find_where-erase_found p ((j, u) ∷ t) id v d h e = elim (Bool-cases (p u)) [
    | inl here ↦ ground (arith, find_where-count_zero p t)
    | inr not_here ↦ elim (Bool-cases (id == j)) [
      | inl same ↦
          let at_j : id ≡ j = ground arith in
          absurd (find_where-known p id v t (ground arith) (rw at_j d.0))
      | inr other ↦ ground (arith, find_where-erase_found p t id v d.1)
    ]
  ]

  pub find_where-insert :
      (p : V → Bool) (k : ℕ) (v : V) (t : Table V)
      → find_where p t ≡ none
      → p v ≡ true
      → find_where p (insert k v t) ≡ some (k, v)
  unfolding find_where
  find_where-insert p k v [] h e = ground arith
  find_where-insert p k v ((j, u) ∷ t) h e = ground (arith, find_where-insert p k v t)

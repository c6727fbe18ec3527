-- ===== src/Inventory/Locks.antt =====
-- The order of the advisory locks in `reserveInventory`
-- (apps/api/src/modules/orders/orders.inventory.service.ts).
use mathlib.Core.List.{Perm}
use mathlib.Core.List.Perm
use kartit.Prelude.{
  ℕ, ◌≡◌, refl, sym, ap, subst, ◌⊎◌, ◌++◌, Bool, true, false, List, [], ◌∷◌, Bool-cases, inl, inr,
  All, map,
}
use kartit.Prelude.Table.{Table}
use kartit.Result.{Result, ok, err, Error, Result-cases}
use kartit.Store.{Product, OrderItem}
use kartit.Inventory.{
  insert_sorted, sort_items, reserve_item, reserve_sorted, reserve_locking, reserve_inventory,
}

-- The loop ends with no lock left to take, or throws.
abbrev pub Outcome : Result (Table Product) → List ℕ → Type 0
Outcome result rest =
    ((t : Table Product) × (result ≡ ok t) × (rest ≡ [])) ⊎ ((why : Error) × (result ≡ err why))

-- The locks that the loop takes are those of its items, in their order, up to where it throws.
locks_taken :
    (t : Table Product) (items : List OrderItem)
    → (rest : List ℕ) × ((reserve_sorted t items).0 ++ rest ≡ map (λ item. item.product_id) items)
      × Outcome (reserve_sorted t items).1 rest
unfolding reserve_sorted
locks_taken t [] = ([], refl, inl (t, refl, refl))
locks_taken t (item ∷ items) = elim (Result-cases (reserve_item t item)) [
  | inr (why, e) ↦ (
    map (λ x. x.product_id) items,
    rw (e, reserve_sorted) refl,
    inr (why, rw (e, reserve_sorted) refl),
  )
  | inl (u, e) ↦
      let (rest, whole, outcome) = locks_taken u items in
      (
        rest,
        rw (e, reserve_sorted) (ap (◌∷◌ item.product_id) whole),
        rw (e, reserve_sorted) outcome,
      )
]

module _ (before : ℕ → ℕ → Bool) where
  -- Each id comes before, or beside, all that follow it.
  abbrev pub IsOrdered : List ℕ → Type 0
  IsOrdered [] = Unit
  IsOrdered (k ∷ ks) = All (λ j. before k j ≡ true) ks × IsOrdered ks

  All-prefix :
      (k : ℕ) (xs ys : List ℕ)
      → All (λ j. before k j ≡ true) (xs ++ ys)
      → All (λ j. before k j ≡ true) xs
  All-prefix k [] ys h = tt
  All-prefix k (x ∷ xs) ys h = (h.0, All-prefix k xs ys h.1)

  IsOrdered-prefix : (xs ys : List ℕ) → IsOrdered (xs ++ ys) → IsOrdered xs
  IsOrdered-prefix [] ys h = tt
  IsOrdered-prefix (x ∷ xs) ys h = (All-prefix x xs ys h.0, IsOrdered-prefix xs ys h.1)

  abbrev IsOrderedItems : List OrderItem → Type 0
  IsOrderedItems items = IsOrdered (map (λ item. item.product_id) items)

  insert_sorted-perm :
      (x : OrderItem) (l : List OrderItem) → Perm (insert_sorted before x l) (x ∷ l)
  unfolding insert_sorted
  insert_sorted-perm x [] = Perm.refl (x ∷ [])
  insert_sorted-perm x (y ∷ l) = elim (Bool-cases (before x.product_id y.product_id)) [
    | inl e ↦ rw e (Perm.refl (x ∷ y ∷ l))
    | inr e ↦ rw e (Perm.trans (Perm.cons y (insert_sorted-perm x l)) (Perm.swap x y l))
  ]

  sort_items-perm : (l : List OrderItem) → Perm (sort_items before l) l
  unfolding sort_items
  sort_items-perm [] = Perm.refl []
  sort_items-perm (x ∷ l) =
      Perm.trans (insert_sorted-perm x (sort_items before l)) (Perm.cons x (sort_items-perm l))

  module _ (total : (a b : ℕ) → before a b ≡ false → before b a ≡ true)
      (transitive : (a b c : ℕ) → before a b ≡ true → before b c ≡ true → before a c ≡ true) where
    abbrev Precedes : ℕ → List OrderItem → Type 0
    Precedes k l = All (λ j. before k j ≡ true) (map (λ item. item.product_id) l)

    Precedes-trans :
        (j k : ℕ) (l : List OrderItem) → before j k ≡ true → Precedes k l → Precedes j l
    Precedes-trans j k [] e h = tt
    Precedes-trans j k (x ∷ l) e h = (transitive j k x.product_id e h.0, Precedes-trans j k l e h.1)

    Precedes-insert_sorted :
        (k : ℕ) (x : OrderItem) (l : List OrderItem)
        → before k x.product_id ≡ true
        → Precedes k l
        → Precedes k (insert_sorted before x l)
    unfolding insert_sorted
    Precedes-insert_sorted k x [] e h = (e, tt)
    Precedes-insert_sorted k x (y ∷ l) e h = elim (Bool-cases (before x.product_id y.product_id)) [
      | inl f ↦ rw f (e, h)
      | inr f ↦ rw f (h.0, Precedes-insert_sorted k x l e h.1)
    ]

    insert_sorted-IsOrdered :
        (x : OrderItem) (l : List OrderItem)
        → IsOrderedItems l
        → IsOrderedItems (insert_sorted before x l)
    unfolding insert_sorted
    insert_sorted-IsOrdered x [] h = (tt, tt)
    insert_sorted-IsOrdered x (y ∷ l) h = elim (Bool-cases (before x.product_id y.product_id)) [
      | inl f ↦ rw f ((f, Precedes-trans x.product_id y.product_id l f h.0), h)
      | inr f ↦ rw f (
        Precedes-insert_sorted y.product_id x l (total x.product_id y.product_id f) h.0,
        insert_sorted-IsOrdered x l h.1,
      )
    ]

    sort_items-IsOrdered : (l : List OrderItem) → IsOrderedItems (sort_items before l)
    unfolding sort_items
    sort_items-IsOrdered [] = tt
    sort_items-IsOrdered (x ∷ l) =
        insert_sorted-IsOrdered x (sort_items before l) (sort_items-IsOrdered l)

    -- Where the comparison of ids is total and transitive, a reservation takes its products' locks in ascending order of their ids. One that succeeds takes the lock of each item's product, as often as the items name it; one that throws has by then taken some of these locks, each at most as often.
    pub reserve_locking-IsOrdered :
        (t : Table Product) (items : List OrderItem)
        → let locks = (reserve_locking before t items).0 in
          IsOrdered locks
          × ((rest : List ℕ) × Perm (locks ++ rest) (map (λ item. item.product_id) items)
              × Outcome (reserve_inventory before t items) rest)
    unfolding reserve_inventory reserve_locking
    reserve_locking-IsOrdered t items =
        let sorted = sort_items before items in
        let (rest, whole, outcome) = locks_taken t sorted in
        (
          IsOrdered-prefix (reserve_sorted t sorted).0 rest
              (subst IsOrdered (sym whole) (sort_items-IsOrdered items)),
          (
            rest,
            subst (λ l. Perm l (map (λ item. item.product_id) items)) (sym whole)
                (Perm.map _ (sort_items-perm items)),
            outcome,
          ),
        )

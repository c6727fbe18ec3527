-- ===== src/Inventory/Reserve.antt =====
-- What `reserveInventory` promises (apps/api/src/modules/orders/orders.inventory.service.ts).
use kartit.Prelude.{
  ℕ, ◌≡◌, refl, ◌∙◌, Bool, some, List, [], ◌∷◌, arith, Option-cases, Bool-cases, inl, inr,
}
use kartit.Prelude.Int.{ℤ, ◌+ℤ◌, ◌≤ℤ◌, int_laws, parts_of_eq}
use kartit.Prelude.Table.{Table, find}
use kartit.Result.{ok, err≢ok, Result-cases}
use kartit.Store.{Product, OrderItem, update_row}
use kartit.Inventory.{
  available_stock, increment_reserved, reserve_item, reserve_sorted, insert_sorted, sort_items,
  reserve_inventory, reserve_locking,
}
use kartit.Inventory.Effects.{
  reserved, physical, share, qty, column-update_add, column-update_same, IsStocked,
}

-- A round that succeeds has found the product, with enough of it available.
reserve_item-eq-ok :
    (item : OrderItem) (t t' : Table Product)
    → reserve_item t item ≡ ok t'
    → (x : Product) × (find item.product_id t ≡ some x)
      × (item.quantity ≤ℤ available_stock x)
      × (update_row item.product_id (increment_reserved item.quantity) t ≡ ok t')
unfolding reserve_item
reserve_item-eq-ok item t t' e = elim (Option-cases (find item.product_id t)) [
  | inl h ↦ absurd (ground arith)
  | inr (x, h) ↦ (x, h, ground arith, ground arith)
]

-- One round adds the quantity to the product's reservation, within its stock.
reserve_item-adds :
    (p : ℕ) (item : OrderItem) (t t' : Table Product)
    → reserve_item t item ≡ ok t'
    → (reserved p t' ≡ reserved p t +ℤ share p item.product_id item.quantity)
      × (physical p t' ≡ physical p t)
reserve_item-adds p item t t' e =
    let (x, found, room, updated) = reserve_item-eq-ok item t t' e in
    let f = increment_reserved item.quantity in
    (
      column-update_add (λ y. y.reserved_qty) f p item.product_id t t' item.quantity (λ y. refl)
          updated,
      column-update_same (λ y. y.physical_stock) f p item.product_id t t' (λ y. refl) updated,
    )

-- At the item's own product there is room; at any other nothing changes.
room_for_share :
    (p k : ℕ) (q : ℤ) (t : Table Product) (x : Product)
    → find k t ≡ some x
    → q ≤ℤ available_stock x
    → reserved p t ≤ℤ physical p t
    → reserved p t +ℤ share p k q ≤ℤ physical p t
unfolding share
room_for_share p k q t x found room h = grind int_laws

reserve_item-IsStocked :
    (item : OrderItem) (t t' : Table Product)
    → reserve_item t item ≡ ok t'
    → IsStocked t
    → IsStocked t'
reserve_item-IsStocked item t t' e h = λ p.
    let (x, found, room, updated) = reserve_item-eq-ok item t t' e in
    let (added, same) = reserve_item-adds p item t t' e in
    rw (added, same) (room_for_share p item.product_id item.quantity t x found room (h p))

reserve_sorted-cons :
    (item : OrderItem) (items : List OrderItem) (t t' : Table Product)
    → (reserve_sorted t (item ∷ items)).1 ≡ ok t'
    → (u : Table Product) × (reserve_item t item ≡ ok u) × ((reserve_sorted u items).1 ≡ ok t')
unfolding reserve_sorted
reserve_sorted-cons item items t t' e = elim (Result-cases (reserve_item t item)) [
  | inl (u, f) ↦ (u, f, rw (f, reserve_sorted) at e)
  | inr (why, f) ↦ absurd (err≢ok (rw (f, reserve_sorted) at e))
]

reserve_sorted-adds :
    (p : ℕ) (items : List OrderItem) (t t' : Table Product)
    → (reserve_sorted t items).1 ≡ ok t'
    → (reserved p t' ≡ reserved p t +ℤ qty p items) × (physical p t' ≡ physical p t)
unfolding reserve_sorted qty
reserve_sorted-adds p [] t t' e = grind int_laws
reserve_sorted-adds p (item ∷ items) t t' e =
    let (u, first, rest) = reserve_sorted-cons item items t t' e in
    let (ih_r, ih_p) = reserve_sorted-adds p items u t' rest in
    let (r, h) = reserve_item-adds p item t u first in
    (omega (int_laws, parts_of_eq ih_r, parts_of_eq r), ih_p ∙ h)

reserve_sorted-IsStocked :
    (items : List OrderItem) (t t' : Table Product)
    → (reserve_sorted t items).1 ≡ ok t'
    → IsStocked t
    → IsStocked t'
unfolding reserve_sorted
reserve_sorted-IsStocked [] t t' e h = λ p. ground (arith, h p)
reserve_sorted-IsStocked (item ∷ items) t t' e h =
    let (u, first, rest) = reserve_sorted-cons item items t t' e in
    reserve_sorted-IsStocked items u t' rest (reserve_item-IsStocked item t u first h)

module _ (before : ℕ → ℕ → Bool) where
  qty-insert_sorted :
      (p : ℕ) (x : OrderItem) (items : List OrderItem)
      → qty p (insert_sorted before x items) ≡ share p x.product_id x.quantity +ℤ qty p items
  unfolding insert_sorted qty
  qty-insert_sorted p x [] = refl
  qty-insert_sorted p x (y ∷ items) = elim (Bool-cases (before x.product_id y.product_id)) [
    | inl e ↦ rw e
    | inr e ↦ rw e (omega (int_laws, parts_of_eq (qty-insert_sorted p x items)))
  ]

  pub qty-sort_items :
      (p : ℕ) (items : List OrderItem) → qty p (sort_items before items) ≡ qty p items
  unfolding sort_items qty
  qty-sort_items p [] = refl
  qty-sort_items p (x ∷ items) = omega (
    int_laws,
    parts_of_eq (qty-insert_sorted p x (sort_items before items)),
    parts_of_eq (qty-sort_items p items),
  )

  -- A reservation that succeeds adds to each product's reserved quantity exactly what the items ask of it, leaves the physical stock, and where no product was oversold before, none is afterwards.
  pub reserve_inventory_sound :
      (items : List OrderItem) (t t' : Table Product)
      → reserve_inventory before t items ≡ ok t'
      → ((p : ℕ) → (reserved p t' ≡ reserved p t +ℤ qty p items) × (physical p t' ≡ physical p t))
        × (IsStocked t → IsStocked t')
  unfolding reserve_inventory reserve_locking
  reserve_inventory_sound items t t' e = (
    λ p. rw (← qty-sort_items p items) (reserve_sorted-adds p (sort_items before items) t t' e),
    reserve_sorted-IsStocked (sort_items before items) t t' e,
  )

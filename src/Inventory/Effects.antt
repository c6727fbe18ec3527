-- ===== src/Inventory/Effects.antt =====
-- What the loops over an order's items do to the stock of each product.
use kartit.Prelude.{
  ℕ, ◌≡◌, ◌∙◌, refl, ◌≢◌, true, false, none, some, List, [], ◌∷◌, arith, ◌==◌, if◌then◌else◌,
  Option-cases, inl, inr, All,
}
use kartit.Prelude.Int.{ℤ, pos, ◌+ℤ◌, ◌≤ℤ◌, int_laws, parts_of_eq}
use kartit.Prelude.Table.{Table, find, modify, find-modify}
use kartit.Result.{ok, >>=-eq-ok}
use kartit.Store.{Product, OrderItem, update_row}
use kartit.Inventory.{
  restore_inventory, ship_inventory, increment_physical, decrement_reserved, decrement_both,
}

-- A column of the product, 0 where there is no such product.
abbrev pub column : (Product → ℤ) → ℕ → Table Product → ℤ
column g p t = elim (find p t) [ none ↦ pos 0 | some x ↦ g x ]

abbrev pub reserved : ℕ → Table Product → ℤ
reserved = column (λ x. x.reserved_qty)

abbrev pub physical : ℕ → Table Product → ℤ
physical = column (λ x. x.physical_stock)

-- The quantity where the two ids are one, 0 otherwise.
unfoldable pub share : ℕ → ℕ → ℤ → ℤ
share p k q = if p == k then q else pos 0

-- How many of the product the items ask for together.
unfoldable pub qty : ℕ → List OrderItem → ℤ
qty p [] = pos 0
qty p (item ∷ items) = share p item.product_id item.quantity +ℤ qty p items

pub update_row-eq-ok :
    {V : Type 0} (k : ℕ) (f : V → V) (t t' : Table V)
    → update_row k f t ≡ ok t'
    → (x : V) × (find k t ≡ some x) × (t' ≡ modify k f t)
unfolding update_row
update_row-eq-ok k f t t' e = elim (Option-cases (find k t)) [
  | inl h ↦ absurd (ground arith)
  | inr (x, h) ↦ (x, h, ground arith)
]

column-modify_add :
    (g : Product → ℤ) (f : Product → Product) (d : ℤ) (p k : ℕ) (t : Table Product) (x : Product)
    → g (f x) ≡ g x +ℤ d
    → find k t ≡ some x
    → column g p (modify k f t) ≡ column g p t +ℤ share p k d
unfolding share
column-modify_add g f d p k t x h e = grind (int_laws, find-modify p k f t)

column-modify_sub :
    (g : Product → ℤ) (f : Product → Product) (d : ℤ) (p k : ℕ) (t : Table Product) (x : Product)
    → g (f x) +ℤ d ≡ g x
    → find k t ≡ some x
    → column g p (modify k f t) +ℤ share p k d ≡ column g p t
unfolding share
column-modify_sub g f d p k t x h e = grind (int_laws, find-modify p k f t)

column-modify_same :
    (g : Product → ℤ) (f : Product → Product) (p k : ℕ) (t : Table Product) (x : Product)
    → g (f x) ≡ g x
    → find k t ≡ some x
    → column g p (modify k f t) ≡ column g p t
column-modify_same g f p k t x h e = grind (int_laws, find-modify p k f t)

-- One `update` of a product: a column that its function raises, lowers or leaves.
module _ (g : Product → ℤ) (f : Product → Product) (p k : ℕ) (t t' : Table Product) where
  pub column-update_add :
      (d : ℤ)
      → ((x : Product) → g (f x) ≡ g x +ℤ d)
      → update_row k f t ≡ ok t'
      → column g p t' ≡ column g p t +ℤ share p k d
  column-update_add d h e =
      let (x, found, e') = update_row-eq-ok k f t t' e in
      rw e' (column-modify_add g f d p k t x (h x) found)

  pub column-update_sub :
      (d : ℤ)
      → ((x : Product) → g (f x) +ℤ d ≡ g x)
      → update_row k f t ≡ ok t'
      → column g p t' +ℤ share p k d ≡ column g p t
  column-update_sub d h e =
      let (x, found, e') = update_row-eq-ok k f t t' e in
      rw e' (column-modify_sub g f d p k t x (h x) found)

  pub column-update_same :
      ((x : Product) → g (f x) ≡ g x) → update_row k f t ≡ ok t' → column g p t' ≡ column g p t
  column-update_same h e =
      let (x, found, e') = update_row-eq-ok k f t t' e in
      rw e' (column-modify_same g f p k t x (h x) found)

abbrev reserved_of : Product → ℤ
reserved_of x = x.reserved_qty

abbrev physical_of : Product → ℤ
physical_of x = x.physical_stock

-- Releasing a reservation: the reserved quantity falls by what the items ask for.
pub reserved-restore :
    (p : ℕ) (items : List OrderItem) (t t' : Table Product)
    → restore_inventory t items false ≡ ok t'
    → (reserved p t' +ℤ qty p items ≡ reserved p t) × (physical p t' ≡ physical p t)
unfolding restore_inventory qty
reserved-restore p [] t t' e = grind int_laws
reserved-restore p (item ∷ items) t t' e =
    let (u, first, rest) =
      >>=-eq-ok (update_row item.product_id (decrement_reserved item.quantity) t) _ e in
    let (ih_r, ih_p) = reserved-restore p items u t' rest in
    let f = decrement_reserved item.quantity in
    let r =
      column-update_sub reserved_of f p item.product_id t u item.quantity (λ x. omega int_laws)
        first in
    let h = column-update_same physical_of f p item.product_id t u (λ x. refl) first in
    (omega (int_laws, parts_of_eq ih_r, parts_of_eq r), ih_p ∙ h)

-- Items that come back to the warehouse: the physical stock rises by what the items ask for.
pub physical-restore :
    (p : ℕ) (items : List OrderItem) (t t' : Table Product)
    → restore_inventory t items true ≡ ok t'
    → (physical p t' ≡ physical p t +ℤ qty p items) × (reserved p t' ≡ reserved p t)
unfolding restore_inventory qty
physical-restore p [] t t' e = grind int_laws
physical-restore p (item ∷ items) t t' e =
    let f = increment_physical item.quantity in
    let (u, first, rest) = >>=-eq-ok (update_row item.product_id f t) _ e in
    let (ih_p, ih_r) = physical-restore p items u t' rest in
    let h = column-update_add physical_of f p item.product_id t u item.quantity (λ x. refl) first in
    let r = column-update_same reserved_of f p item.product_id t u (λ x. refl) first in
    (omega (int_laws, parts_of_eq ih_p, parts_of_eq h), ih_r ∙ r)

-- Shipping: both columns fall by what the items ask for.
pub ship_inventory-falls :
    (p : ℕ) (items : List OrderItem) (t t' : Table Product)
    → ship_inventory t items ≡ ok t'
    → (physical p t' +ℤ qty p items ≡ physical p t) × (reserved p t' +ℤ qty p items ≡ reserved p t)
unfolding ship_inventory qty
ship_inventory-falls p [] t t' e = grind int_laws
ship_inventory-falls p (item ∷ items) t t' e =
    let f = decrement_both item.quantity in
    let (u, first, rest) = >>=-eq-ok (update_row item.product_id f t) _ e in
    let (ih_p, ih_r) = ship_inventory-falls p items u t' rest in
    let h =
      column-update_sub physical_of f p item.product_id t u item.quantity (λ x. omega int_laws)
        first in
    let r =
      column-update_sub reserved_of f p item.product_id t u item.quantity (λ x. omega int_laws)
        first in
    (
      omega (int_laws, parts_of_eq ih_p, parts_of_eq h),
      omega (int_laws, parts_of_eq ih_r, parts_of_eq r),
    )

-- No quantity is below 0.
abbrev pub IsNonneg : List OrderItem → Type 0
IsNonneg = All (λ item. pos 0 ≤ℤ item.quantity)

pub qty_nonneg : (p : ℕ) (items : List OrderItem) → IsNonneg items → pos 0 ≤ℤ qty p items
unfolding qty share
qty_nonneg p [] h = omega arith
qty_nonneg p (item ∷ items) h = grind (int_laws, qty_nonneg p items h.1)

-- No product has more reserved than there is.
abbrev pub IsStocked : Table Product → Type 0
IsStocked t = (p : ℕ) → reserved p t ≤ℤ physical p t

-- The product of every item is there.
abbrev pub IsKnown : List OrderItem → Table Product → Type 0
IsKnown items t = All (λ item. find item.product_id t ≢ none) items

-- ===== src/Inventory/Contention.antt =====
-- Checkouts that compete for the last units of a product
-- (apps/api/src/modules/orders/orders.inventory.service.ts): the lock makes their reservations follow one
-- another.
use Prim.Native.Nat.{min}
use kartit.Prelude.{ℕ, zero, suc, ◌≡◌, ◌∙◌, Bool, false, some, [], ◌∷◌, arith}
use kartit.Prelude.Int.{pos, ◌+ℤ◌, ◌≤ℤ◌, int_laws, parts_of_eq}
use kartit.Prelude.Table.{Table, find, modify, find-modify_self}
use kartit.Result.{Error, ok, err, conflict, insufficient_stock}
use kartit.Store.{Product, OrderItem, update_row}
use kartit.Inventory.{
  available_stock, increment_reserved, reserve_item, reserve_sorted, insert_sorted, sort_items,
  reserve_inventory, reserve_locking,
}
use kartit.Inventory.Effects.{reserved}

module _ (before : ℕ → ℕ → Bool) (item : OrderItem) where
  -- So many checkouts, one after the other, each for this one item: how many reserve it, and the
  -- table that they leave.
  unfoldable pub checkouts : ℕ → Table Product → ℕ × Table Product
  checkouts zero t = (0, t)
  checkouts (suc m) t = elim (reserve_inventory before t (item ∷ [])) [
    | ok t' ↦ let (n, u) = checkouts m t' in (suc n, u)
    | err _ ↦ checkouts m t
  ]

  reserve_inventory_one :
      (t : Table Product) → reserve_inventory before t (item ∷ []) ≡ reserve_item t item
  unfolding reserve_inventory reserve_locking sort_items insert_sorted reserve_sorted
  reserve_inventory_one t = ground arith

  module _ (x : Product) (t : Table Product) (found : find item.product_id t ≡ some x)
      (live : x.is_deleted ≡ false) where
    reserve_item_enough :
        item.quantity ≤ℤ available_stock x
        → reserve_item t item ≡ ok (modify item.product_id (increment_reserved item.quantity) t)
    unfolding reserve_item update_row
    reserve_item_enough h = ground arith

    reserve_item_short :
        ¬ (item.quantity ≤ℤ available_stock x)
        → reserve_item t item ≡ err (conflict insufficient_stock)
    unfolding reserve_item
    reserve_item_short h = ground arith

  available_stock-increment :
      (x : Product) (k : ℕ)
      → item.quantity ≡ pos 1
      → available_stock x ≡ pos (suc k)
      → available_stock (increment_reserved item.quantity x) ≡ pos k
  available_stock-increment x k one e = rw one (omega (int_laws, parts_of_eq e))

  checkouts-ok :
      (m : ℕ) (t t' : Table Product)
      → reserve_item t item ≡ ok t'
      → checkouts (suc m) t ≡ (suc (checkouts m t').0, (checkouts m t').1)
  unfolding checkouts
  checkouts-ok m t t' e = ground (arith, reserve_inventory_one t)

  checkouts-err :
      (m : ℕ) (t : Table Product) (why : Error)
      → reserve_item t item ≡ err why
      → checkouts (suc m) t ≡ checkouts m t
  unfolding checkouts
  checkouts-err m t why e = ground (arith, reserve_inventory_one t)

  -- With n units of a product that is not deleted available, of m checkouts of one unit each exactly the smaller of n and m succeed, and the reserved quantity has risen by as many.
  pub checkouts_served :
      (m n : ℕ) (x : Product) (t : Table Product)
      → find item.product_id t ≡ some x
      → x.is_deleted ≡ false
      → item.quantity ≡ pos 1
      → available_stock x ≡ pos n
      → ((checkouts m t).0 ≡ min n m)
        × (reserved item.product_id (checkouts m t).1 ≡ x.reserved_qty +ℤ pos (min n m))
  unfolding checkouts
  checkouts_served zero n x t found live one e = (omega arith, grind int_laws)
  checkouts_served (suc m) zero x t found live one e =
      let short = reserve_item_short x t found live (rw (one, e) (omega arith)) in
      let (served, held) = checkouts_served m zero x t found live one e in
      rw (checkouts-err m t (conflict insufficient_stock) short)
        (omega (arith, served), held ∙ omega int_laws)
  checkouts_served (suc m) (suc n) x t found live one e =
      let f = increment_reserved item.quantity in
      let t' = modify item.product_id f t in
      let enough = reserve_item_enough x t found live (rw (one, e) (omega arith)) in
      let (served, held) =
        checkouts_served m n (f x) t' (find-modify_self item.product_id f t x found) live one
          (available_stock-increment x n one e) in
      rw (checkouts-ok m t t' enough) (omega (arith, served), held ∙ rw one (omega int_laws))

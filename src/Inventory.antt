-- ===== src/Inventory.antt =====
-- packages/db/src/inventory.ts and apps/api/src/modules/orders/orders.inventory.service.ts: the loops
-- that release, ship and reserve stock. They touch no table but the products', so each is a function on
-- that table; an error inside a transaction drops the table that it has reached. The columns are signed
-- and their 32-bit range is not modelled.
pub mod Effects
pub mod Reserve
pub mod Locks
pub mod Contention
pub mod Tests
use kartit.Prelude.{ℕ, Bool, true, false, Option, none, some, List, [], ◌∷◌, ◌==◌, if◌then◌else◌}
use kartit.Prelude.Int.{ℤ, pos, ◌+ℤ◌, ◌-ℤ◌, ltb_ℤ}
use kartit.Prelude.Table.{Table, find, modify}
use kartit.Result.{
  Result, ok, err, record_not_found, conflict, insufficient_stock, ◌>>=◌, ◌>>◌, throw_if, or_throw,
}
use kartit.Store.{Product, OrderItem, update_row}

-- `physicalStock - reservedQty`
abbrev pub available_stock : Product → ℤ
available_stock p = p.physical_stock -ℤ p.reserved_qty

abbrev pub increment_physical : ℤ → Product → Product
increment_physical q p = record p { physical_stock = p.physical_stock +ℤ q }

abbrev pub decrement_reserved : ℤ → Product → Product
decrement_reserved q p = record p { reserved_qty = p.reserved_qty -ℤ q }

abbrev pub increment_reserved : ℤ → Product → Product
increment_reserved q p = record p { reserved_qty = p.reserved_qty +ℤ q }

abbrev pub decrement_both : ℤ → Product → Product
decrement_both q p = record p {
  physical_stock = p.physical_stock -ℤ q;
  reserved_qty = p.reserved_qty -ℤ q;
}

-- The body of the loop in `restoreInventory`.
abbrev pub restore_item : Bool → ℤ → Product → Product
restore_item was_shipped q = if was_shipped then increment_physical q else decrement_reserved q

unfoldable pub restore_inventory : Table Product → List OrderItem → Bool → Result (Table Product)
restore_inventory tx [] was_shipped = ok tx
restore_inventory tx (item ∷ items) was_shipped =
    update_row item.product_id (restore_item was_shipped item.quantity) tx >>= λ tx'.
    restore_inventory tx' items was_shipped

unfoldable pub ship_inventory : Table Product → List OrderItem → Result (Table Product)
ship_inventory tx [] = ok tx
ship_inventory tx (item ∷ items) =
    update_row item.product_id (decrement_both item.quantity) tx >>= λ tx'. ship_inventory tx' items

-- `findUniqueOrThrow({ where: { id, deletedAt: null } })`
abbrev pub find_live : ℕ → Table Product → Result Product
find_live id tx = elim (find id tx) [
  | none ↦ err record_not_found
  | some p ↦ if p.is_deleted then err record_not_found else ok p
]

-- One round of the loop in `reserveInventory`, under the product's lock.
unfoldable pub reserve_item : Table Product → OrderItem → Result (Table Product)
reserve_item tx item = do
  product ← find_live item.product_id tx
  throw_if (ltb_ℤ (available_stock product) item.quantity) (conflict insufficient_stock)
  update_row item.product_id (increment_reserved item.quantity) tx

-- The loop: the products whose advisory locks it takes, in that order, and what it ends in. A lock is taken
-- before the product is read, and so also in the round that throws.
unfoldable pub reserve_sorted : Table Product → List OrderItem → List ℕ × Result (Table Product)
reserve_sorted tx [] = ([], ok tx)
reserve_sorted tx (item ∷ items) = elim (reserve_item tx item) [
  | err why ↦ (item.product_id ∷ [], err why)
  | ok tx' ↦ let (locks, result) = reserve_sorted tx' items in (item.product_id ∷ locks, result)
]

-- `before a b` stands for `a.localeCompare(b) <= 0`, which the JavaScript engine gives.
module _ (before : ℕ → ℕ → Bool) where
  unfoldable pub insert_sorted : OrderItem → List OrderItem → List OrderItem
  insert_sorted x [] = x ∷ []
  insert_sorted x (y ∷ ys) =
      if before x.product_id y.product_id then x ∷ y ∷ ys else y ∷ insert_sorted x ys

  -- `[...items].sort(...)`, which is stable.
  unfoldable pub sort_items : List OrderItem → List OrderItem
  sort_items [] = []
  sort_items (x ∷ xs) = insert_sorted x (sort_items xs)

  -- `reserveInventory`, with the locks that it takes.
  unfoldable pub reserve_locking : Table Product → List OrderItem → List ℕ × Result (Table Product)
  reserve_locking tx items = reserve_sorted tx (sort_items items)

  unfoldable pub reserve_inventory : Table Product → List OrderItem → Result (Table Product)
  reserve_inventory tx items = (reserve_locking tx items).1

-- ===== src/Inventory/Tests.antt =====
-- Reservations of the sample shop's lamps.
use Prim.Native.Nat.{min}
use mathlib.Core.List.{Perm}
use kartit.Prelude.{ℕ, ◌≡◌, refl, List, [], ◌∷◌, ◌++◌, arith}
use kartit.Prelude.Int.{pos, ◌+ℤ◌, ◌-ℤ◌}
use kartit.Prelude.Table.{Table, find, modify}
use kartit.Store.{Product, OrderItem, update_row}
use kartit.Samples.{before_id, lamp, two_lamps}
use kartit.Inventory.{
  reserve_inventory, reserve_sorted, reserve_item, insert_sorted, sort_items, reserve_locking,
}
use kartit.Inventory.Effects.{reserved, physical, qty, IsStocked}
use kartit.Inventory.Reserve.{reserve_inventory_sound}
use kartit.Inventory.Contention.{checkouts, checkouts_served}
use kartit.Inventory.Locks.{IsOrdered, Outcome, reserve_locking-IsOrdered}

abbrev shelf : Table Product
shelf = (1, lamp) ∷ []

abbrev reserved_shelf : Table Product
reserved_shelf = (1, record lamp { reserved_qty = pos 2 }) ∷ []

reserve_inventory_sound_example :
    ((p : ℕ)
      → (reserved p reserved_shelf ≡ reserved p shelf +ℤ qty p (two_lamps ∷ []))
        × (physical p reserved_shelf ≡ physical p shelf))
    × (IsStocked shelf → IsStocked reserved_shelf)
unfolding reserve_inventory reserve_locking reserve_sorted reserve_item sort_items insert_sorted
    find modify update_row ◌+ℤ◌ ◌-ℤ◌
reserve_inventory_sound_example =
    reserve_inventory_sound before_id (two_lamps ∷ []) shelf reserved_shelf refl

abbrev one_lamp : OrderItem
one_lamp = record two_lamps { quantity = pos 1 }

-- Seven customers, five lamps.
checkouts_served_example :
    ((checkouts before_id one_lamp 7 shelf).0 ≡ min 5 7)
    × (reserved 1 (checkouts before_id one_lamp 7 shelf).1 ≡ pos 0 +ℤ pos (min 5 7))
unfolding find ◌-ℤ◌
checkouts_served_example = checkouts_served before_id one_lamp 7 5 lamp shelf refl refl refl refl

abbrev lamp_and_chair : List OrderItem
lamp_and_chair = record two_lamps { product_id = 9 } ∷ two_lamps ∷ []

-- The chair is not there: the locks of both are taken, the lamp's first.
reserve_locking-IsOrdered_example :
    let locks = (reserve_locking before_id shelf lamp_and_chair).0 in
    IsOrdered before_id locks
    × ((rest : List ℕ) × Perm (locks ++ rest) (9 ∷ 1 ∷ [])
        × Outcome (reserve_inventory before_id shelf lamp_and_chair) rest)
reserve_locking-IsOrdered_example =
    reserve_locking-IsOrdered before_id (λ a b h. ground arith) (λ a b c h k. ground arith) shelf
      lamp_and_chair

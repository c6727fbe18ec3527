-- ===== src/Products.antt =====
-- The removal of a product (apps/api/src/modules/products/products.service.ts). An answer comes with the keys of
-- the caches that the call deletes.
pub mod Unseen
pub mod Tests
use kartit.Prelude.{
  ℕ, ◌+◌, Bool, true, false, not, ◌&&◌, ◌||◌, Option, none, some, List, [], ◌∷◌, ltb, ◌==◌,
  if◌then◌else◌,
}
use kartit.Prelude.Table.{Table, find, count, modify}
use kartit.Result.{Result, ok, err, not_found, conflict, not_found_code, product_has_references}
use kartit.Shared.Enums.{OrderStatus, delivered, cancelled, failed, refunded}
use kartit.Shared.Transitions.{status_eq}
use kartit.Store.{Db, Product, Order, OrderItem, CartItem}
use kartit.Categories.{CacheKey, product_list, product_by_id, product_by_slug}

-- `status: { notIn: [...] }`
abbrev pub is_active_status : OrderStatus → Bool
is_active_status s = not (
    status_eq s delivered
    || (status_eq s cancelled || (status_eq s failed || status_eq s refunded)))

unfoldable pub items_of : ℕ → List OrderItem → ℕ
items_of id [] = 0
items_of id (item ∷ items) = (if item.product_id == id then 1 else 0) + items_of id items

-- `orderItem.count`
unfoldable pub active_order_count : ℕ → Table Order → ℕ
active_order_count id [] = 0
active_order_count id ((_, o) ∷ t) =
    (if is_active_status o.status then items_of id o.items else 0) + active_order_count id t

abbrev pub is_item_of : ℕ → CartItem → Bool
is_item_of id item = item.product_id == id

abbrev pub retire_product : Product → Product
retire_product p = record p { is_deleted = true; is_active = false }

abbrev pub is_referenced : ℕ → Db → Bool
is_referenced id db =
    ltb 0 (count (is_item_of id) db.cart_items) || ltb 0 (active_order_count id db.orders)

unfoldable pub remove_product : ℕ → Db → Result (List CacheKey × Db)
remove_product id db = elim (find id db.products) [
  | none ↦ err (not_found not_found_code)
  | some p ↦
      if p.is_deleted
      then err (not_found not_found_code)
      else if is_referenced id db
      then err (conflict product_has_references)
      else ok (
        product_by_id id ∷ product_by_slug p.slug ∷ product_list ∷ [],
        record db { products = modify id retire_product db.products },
      )
]

-- ===== src/Cart/Clamp.antt =====
-- Adding more than there is (apps/api/src/modules/cart/cart.service.ts).
use Prim.Native.Nat.{min}
use kartit.Prelude.{ℕ, ◌+◌, ◌<◌, ◌≡◌, true, some, arith, ltb, Bool-cases, inl, inr}
use kartit.Prelude.Int.{pos, ◌+ℤ◌, int_laws, parts_of_eq}
use kartit.Prelude.Table.{find, modify, find-modify_self}
use kartit.Result.{err, conflict, insufficient_stock}
use kartit.Inventory.{available_stock}
use kartit.Store.{Db, Product, CartItem}
use kartit.Cart.{
  CartIds, add_item, find_undeleted, get_or_create_cart, upsert_item, clamp_item, find_item,
  is_available, add_quantity, set_quantity,
}
use kartit.Cart.Bounds.{reply_cart-db}

-- A product that is in the cart already, added again: the line's quantity becomes the sum, or the units available where the sum is more, and then the call is the conflict.
pub add_item_clamps :
    (ids : CartIds) (user_id product_id cart_id k m q n : ℕ) (item : CartItem) (p : Product)
    (db : Db)
    → find_undeleted product_id db ≡ some p
    → is_available p ≡ true
    → available_stock p ≡ pos n
    → find user_id db.carts ≡ some cart_id
    → find_item cart_id product_id db ≡ some (k, item)
    → find k db.cart_items ≡ some item
    → item.quantity ≡ pos m
    → let out = add_item ids user_id product_id (pos q) db in
      (find k out.1.cart_items ≡ some (set_quantity (pos (min (m + q) n)) item))
      × (n < m + q → out.0 ≡ err (conflict insufficient_stock))
unfolding add_item get_or_create_cart upsert_item clamp_item
add_item_clamps ids user_id product_id cart_id k m q n item p db live sold stock cart row here
      quantity =
    let f = add_quantity (pos q) in
    let g = set_quantity (pos n) in
    let sum : item.quantity +ℤ pos q ≡ pos (m + q) = omega (int_laws, parts_of_eq quantity) in
    let added = find-modify_self k f db.cart_items item here in
    let clamped = find-modify_self k g (modify k f db.cart_items) (f item) added in
    elim (Bool-cases (ltb n (m + q))) [
      | inl more ↦ (ground (arith, sum, clamped), λ h. ground (arith, sum, clamped))
      | inr fits ↦ (
        ground (
          arith,
          sum,
          added,
          reply_cart-db cart_id (record db { cart_items = modify k f db.cart_items }),
        ),
        λ h. absurd (ground arith),
      )
    ]

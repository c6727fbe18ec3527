-- ===== src/Products/Tests.antt =====
-- The sample shop's product, in a cart and out of it.
use kartit.Prelude.{ℕ, ◌≡◌, refl, true, some, [], ◌∷◌}
use kartit.Prelude.Table.{find, count, modify}
use kartit.Result.{err, conflict, not_found, not_found_code, product_has_references}
use kartit.Store.{Db, Order}
use kartit.Samples.{shop, lamp}
use kartit.Cart.{cart_lines}
use kartit.Categories.{product_list, product_by_id, product_by_slug}
use kartit.Products.{remove_product, active_order_count, items_of, retire_product, is_active_status}
use kartit.Products.Unseen.{stock_of, remove_product-unseen}

in_a_cart : remove_product 1 shop ≡ err (conflict product_has_references)
unfolding remove_product find count active_order_count
in_a_cart = refl

unknown : remove_product 9 shop ≡ err (not_found not_found_code)
unfolding remove_product find
unknown = refl

abbrev empty_carts : Db
empty_carts = record shop { cart_items = [] }

abbrev without_lamp : Db
without_lamp = record empty_carts { products = (1, retire_product lamp) ∷ [] }

remove_product-unseen_example :
    ((cart_id : ℕ)
      → cart_lines cart_id without_lamp.products without_lamp.cart_items
        ≡ cart_lines cart_id empty_carts.products empty_carts.cart_items)
    × ((k : ℕ) → stock_of (find k without_lamp.products) ≡ stock_of (find k empty_carts.products))
    × (without_lamp.orders ≡ empty_carts.orders)
    × ((k : ℕ) (o : Order)
        → find k without_lamp.orders ≡ some o
        → is_active_status o.status ≡ true
        → items_of 1 o.items ≡ 0)
unfolding remove_product find count active_order_count modify
remove_product-unseen_example =
    remove_product-unseen 1 empty_carts without_lamp
      (product_by_id 1 ∷ product_by_slug lamp.slug ∷ product_list ∷ []) refl

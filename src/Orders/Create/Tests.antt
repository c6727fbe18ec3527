-- ===== src/Orders/Create/Tests.antt =====
-- The customer's checkout, with and without a promotion.
use kartit.Prelude.{ℕ, ◌≡◌, ◌≤◌, refl, none, some, [], ◌∷◌}
use kartit.Prelude.Int.{pos, ◌+ℤ◌, ◌≤ℤ◌, ◌-ℤ◌, ◌*ℤ◌}
use kartit.Prelude.Table.{find, modify, find_where, count}
use kartit.Shared.Text.{codes, to_upper_case}
use kartit.Shared.Pricing.{rule_for, calculate_pricing, clamp_subtotal}
use kartit.Inventory.{
  reserve_item, reserve_sorted, insert_sorted, sort_items, reserve_inventory, reserve_locking,
}
use kartit.Promotions.{total_use_count, user_use_count, lock_promotion}
use kartit.Store.{Db, Order, update_row, after}
use kartit.Cart.{cart_lines, sum_lines, clear_cart, checked_promotion}
use kartit.Samples.{before_id, usd, shop, ids, input, tenth, home}
use kartit.Orders.Create.{
  Draft, check_line, check_lines, prepare_lines, own_address, prepare, new_order, create_write,
  create,
}
use kartit.Orders.Create.Total.{items_total, create_total, create_write-limits}

-- Two lamps, and the shipping of an order below fifty dollars.
abbrev draft : Draft
draft = record {
  user_id = 7;
  ship_to = home;
  cart_id = 70;
  items =
      record {
        product_id = 1;
        product_name = codes "Lamp";
        product_slug = codes "lamp";
        image_url = none;
        unit_price_minor = pos 1000;
        currency = usd;
        quantity = pos 2;
        total_minor = pos 2000;
      }
      ∷ [];
  pricing =
      calculate_pricing
        (record { subtotal = pos 2000; currency = usd; discount_minor = some (pos 0) });
  promotion_id = none;
  promotion_code = none;
}

abbrev order : Order
order = new_order ids draft

abbrev ordered : Db
ordered = after (create before_id none usd ids 7 input shop) shop

create_total_example :
    (order.subtotal_minor ≡ clamp_subtotal (items_total order.items))
    × (pos 0 ≤ℤ order.discount_minor)
    × (order.discount_minor ≤ℤ order.subtotal_minor)
    × (order.total_minor +ℤ order.discount_minor
        ≡ order.subtotal_minor +ℤ order.shipping_minor +ℤ order.tax_minor)
unfolding find find_where modify count cart_lines sum_lines clear_cart checked_promotion check_line
    check_lines prepare_lines own_address prepare create_write create update_row reserve_item
    reserve_sorted insert_sorted sort_items reserve_inventory reserve_locking ◌+ℤ◌ ◌*ℤ◌ ◌-ℤ◌
    to_upper_case calculate_pricing rule_for
create_total_example = create_total before_id none usd ids 7 input shop ordered order refl

abbrev discounted : Draft
discounted = record draft { promotion_id = some 4; promotion_code = some (codes "TENTH") }

abbrev discounted_shop : Db
discounted_shop = after (create_write before_id ids discounted shop) shop

create_write-limits_example :
    ((m : ℕ) → tenth.max_uses ≡ some m → total_use_count 4 discounted_shop.orders ≤ m)
    × ((m : ℕ) → tenth.max_uses_per_user ≡ some m → user_use_count 4 7 discounted_shop.orders ≤ m)
unfolding find modify count clear_cart create_write update_row reserve_item reserve_sorted
    insert_sorted sort_items reserve_inventory reserve_locking lock_promotion ◌+ℤ◌ ◌*ℤ◌ ◌-ℤ◌
create_write-limits_example =
    create_write-limits before_id ids discounted 4 tenth shop discounted_shop
      (new_order ids discounted) refl refl refl

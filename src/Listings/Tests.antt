-- ===== src/Listings/Tests.antt =====
-- Three orders, two of them of one customer, read in pages.
use kartit.Prelude.{ℕ, ◌≡◌, refl, true, false, none, some, [], ◌∷◌, length, suc}
use kartit.Prelude.Int.{pos}
use kartit.Prelude.Table.{Table, find, IsDistinct}
use kartit.Result.{ok, err, forbidden}
use kartit.Shared.Enums.{pending}
use kartit.Shared.Text.{codes}
use kartit.Store.{Db, Order}
use kartit.Samples.{shop, usd, home, two_lamps}
use kartit.Listings.{
  page, behind, last_id, select, newest_first, list_orders, visible_orders, get_order,
  get_refund_request,
}
use kartit.Listings.Walk.{came_to_end, walk, walk-list_orders}

abbrev order_of : ℕ → Order
order_of user_id = record {
  order_number = codes "KART-1";
  user_id = user_id;
  status = pending;
  subtotal_minor = pos 2000;
  discount_minor = pos 0;
  shipping_minor = pos 500;
  tax_minor = pos 0;
  total_minor = pos 2500;
  promotion_id = none;
  promotion_code = none;
  currency = usd;
  ship_to = home;
  items = two_lamps ∷ [];
  paid_at = none;
  delivered_at = none;
  created_at = 100;
  updated_at = 100;
}

abbrev three_orders : Db
three_orders = record shop { orders = (11, order_of 7) ∷ (12, order_of 8) ∷ (13, order_of 7) ∷ [] }

abbrev no_rows : ℕ → Table Order
no_rows cursor = []

first_page :
    list_orders no_rows 7 false none 1 three_orders
    ≡ record { items = (13, order_of 7) ∷ []; next_cursor = some 13 }
unfolding page last_id visible_orders newest_first select
first_page = refl

second_page :
    list_orders no_rows 7 false (some 13) 1 three_orders
    ≡ record { items = (11, order_of 7) ∷ []; next_cursor = none }
unfolding page last_id visible_orders newest_first select behind find
second_page = refl

of_another : get_order 7 false 12 three_orders ≡ err forbidden
unfolding get_order find
of_another = refl

for_admin : get_order 7 true 12 three_orders ≡ ok (order_of 8)
unfolding get_order find
for_admin = refl

no_request : get_refund_request 7 false 99 three_orders ≡ ok none
unfolding get_refund_request find
no_request = refl

keys-IsDistinct : IsDistinct (visible_orders 7 true three_orders)
unfolding IsDistinct visible_orders newest_first select find
keys-IsDistinct = (refl, (refl, (refl, tt)))

walk-list_orders_example :
    walk
      (suc (length (visible_orders 7 true three_orders)))
      (λ cursor. list_orders no_rows 7 true cursor 2 three_orders)
      none
    ≡ (visible_orders 7 true three_orders, came_to_end)
walk-list_orders_example = walk-list_orders no_rows 7 true 1 three_orders keys-IsDistinct

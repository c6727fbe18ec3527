-- ===== src/Cart/Tests.antt =====
-- The summary of the sample customer's cart.
use kartit.Prelude.{some, ◌+◌, ◌<◌, ◌≡◌, refl, true, none}
use kartit.Prelude.Table.{find, find_where}
use kartit.Result.{ok, err, Error, conflict, insufficient_stock}
use kartit.Shared.Text.{text_eq}
use kartit.Samples.{usd, shop, input, home, lamp, in_cart}
use kartit.Cart.{CartIds, add_item, set_quantity, find_undeleted}
use kartit.Cart.Totals.{CartSummary, summary}
use kartit.Cart.Clamp.{add_item_clamps}
use Prim.Native.Nat.{min}
use kartit.Prelude.Int.{pos, ◌-ℤ◌}
use kartit.Cart.Summary.{summary-prepare}
use kartit.Orders.Create.{Draft, prepare}

abbrev cart_ids : CartIds
cart_ids = record { cart_id = 71; item_id = 72 }

summary-prepare_example :
    ((s : CartSummary)
      → (summary cart_ids none 100 7 none shop).0 ≡ ok s
      → text_eq s.pricing.currency usd ≡ true
      → (draft : Draft) × (prepare none usd 100 7 input shop ≡ ok draft)
        × (draft.pricing ≡ s.pricing)
        × (draft.promotion_code ≡ s.promotion_code))
    × ((why : Error)
        → (summary cart_ids none 100 7 none shop).0 ≡ err why
        → prepare none usd 100 7 input shop ≡ err why)
unfolding find
summary-prepare_example = summary-prepare cart_ids none usd 100 7 70 input home shop refl refl refl

-- Nine more lamps, where two are in the cart and five in stock.
add_item_clamps_example :
    (find 1 (add_item cart_ids 7 1 (pos 9) shop).1.cart_items
      ≡ some (set_quantity (pos (min (2 + 9) 5)) in_cart))
    × (5 < 2 + 9 → (add_item cart_ids 7 1 (pos 9) shop).0 ≡ err (conflict insufficient_stock))
unfolding find find_where find_undeleted ◌-ℤ◌
add_item_clamps_example =
    add_item_clamps cart_ids 7 1 70 1 2 9 5 in_cart lamp shop refl refl refl refl refl refl refl

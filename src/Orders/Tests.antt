-- ===== src/Orders/Tests.antt =====
-- The sample customer's open order, paid, and cancelled after a stale read.
use kartit.Prelude.{◌≡◌, refl, none, some, [], ◌∷◌}
use kartit.Prelude.Int.{pos, ◌-ℤ◌}
use kartit.Prelude.Table.{find, find_where, modify}
use kartit.Result.{ok}
use kartit.Shared.Enums.{paid, pending, cancelled, requires_payment}
use kartit.Shared.Text.{codes}
use kartit.Inventory.{restore_inventory}
use kartit.Store.{Db, Order, Payment, update_row, after}
use kartit.Samples.{shop, usd, home, two_lamps, lamp, ctx}
use kartit.Orders.{Ctx, update_many}
use kartit.Orders.Cancel.{cancel_write}
use kartit.Orders.Cancel.Stale.{cancel_write-stale_pending}
use kartit.Orders.Webhook.{
  find_intent, mark_paid_flipped, mark_paid_write, mark_paid_by_payment_intent,
}

abbrev pub open_order : Order
open_order = record {
  order_number = codes "KART-1";
  user_id = 7;
  status = pending;
  subtotal_minor = pos 2000;
  discount_minor = pos 0;
  shipping_minor = pos 500;
  tax_minor = pos 0;
  total_minor = pos 2500;
  promotion_id = none;
  promotion_code = none;
  currency = usd;
  ship_to = home;
  items = two_lamps ∷ [];
  paid_at = none;
  delivered_at = none;
  created_at = 100;
  updated_at = 100;
}

abbrev pub open_payment : Payment
open_payment = record {
  order_id = 11;
  provider_payment_id = some 90;
  status = requires_payment;
  amount_minor = pos 2500;
  currency = usd;
  failure_reason = none;
}

abbrev pub open_shop : Db
open_shop = record shop {
  products = (1, record lamp { reserved_qty = pos 2 }) ∷ [];
  orders = (11, open_order) ∷ [];
  payments = (12, open_payment) ∷ [];
}

abbrev pub later : Ctx
later = record { now = 300; outbox_id = 15 }

abbrev pub paid_shop : Db
paid_shop = after (mark_paid_by_payment_intent ctx 90 open_shop) open_shop

cancel_write-stale_pending_example :
    (r : Order) × (db' : Db) × (cancel_write later 7 11 open_order none paid_shop
      ≡ ok ((r, none), db'))
    × (r.status ≡ cancelled)
    × (find 11 db'.orders ≡ some r)
    × (db'.payments ≡ paid_shop.payments)
unfolding mark_paid_by_payment_intent find_intent mark_paid_write mark_paid_flipped update_many
    update_row find find_where modify restore_inventory ◌-ℤ◌
cancel_write-stale_pending_example =
    cancel_write-stale_pending later 7 11 open_order
      (record open_order { status = paid; paid_at = some 200; updated_at = 200 }) none paid_shop
      ((1, lamp) ∷ []) refl refl refl refl

-- ===== src/Run/Tests.antt =====
-- A checkout of the whole cart, its payment and its shipment; and the open order, paid, cancelled and reported
-- as paid again.
use kartit.Prelude.{◌≡◌, refl, Option, none, some, true, false, [], arith}
use kartit.Prelude.Table.{sum_by, find, find_where, modify, IsDistinct}
use kartit.Prelude.Int.{◌-ℤ◌, ◌+ℤ◌}
use kartit.Result.{Error, ok, err, record_not_found}
use kartit.Inventory.{restore_inventory}
use kartit.Inventory.Effects.{qty, share}
use kartit.Cart.Bounds.{IsSaneCart}
use kartit.Orders.Accounting.{IsSane}
use kartit.Store.{Db, Order, update_row, after}
use kartit.Orders.{update_many, find_last_where}
use kartit.Orders.Cancel.{cancel_write, cancel_check, cancel_tx, refund_after, cancel}
use kartit.Orders.Webhook.{
  find_intent, mark_paid_flipped, mark_paid_write, mark_paid_by_payment_intent, refund_order,
}
use kartit.Orders.Progress.{Progress}
use kartit.Orders.Tests.{open_order, open_payment, open_shop, paid_shop, later}
use kartit.Run.Final.{Runs-Progress, cancel-final, mark_paid-final}
use kartit.Shared.Enums.{paid, processing, shipped, cancelled, payment_succeeded}
use kartit.Samples.{before_id, usd, shop, ids, ctx, input}
use kartit.Run.{create_call, cancel_call, status_call, paid_call, step, Runs, done, call}
use kartit.Run.Accounts.{IsSound, IsConserved, Runs-IsSound}

-- Shipped, out of the checkout.
abbrev shipped_shop : Db
shipped_shop = step before_id usd (status_call ctx 11 shipped) (
    step before_id usd (status_call ctx 11 processing) (
      step before_id usd (status_call ctx 11 paid)
        (step before_id usd (create_call none ids 7 input) shop)))

shipping : Runs before_id usd shop shipped_shop
unfolding find
shipping = call {db = shop} (create_call none ids 7 input) refl (
    call (status_call ctx 11 paid) tt
      (call (status_call ctx 11 processing) tt (call (status_call ctx 11 shipped) tt done)))

shop-IsSound : IsSound shop
unfolding sum_by find IsDistinct IsSane IsSaneCart
shop-IsSound = record {
  balanced = λ p. ground arith;
  stocked = λ p. ground arith;
  distinct = tt;
  sane = tt;
  carts = (omega arith, tt);
}

Runs-IsSound_example : IsSound shipped_shop × IsConserved shop shipped_shop
Runs-IsSound_example = Runs-IsSound before_id usd shop shipped_shop shipping shop-IsSound

open_shop-IsSound : IsSound open_shop
unfolding sum_by find IsDistinct IsSane IsSaneCart qty share ◌+ℤ◌
open_shop-IsSound = record {
  balanced = λ p. ground arith;
  stocked = λ p. ground arith;
  distinct = (refl, tt);
  sane = ((omega arith, tt), tt);
  carts = (omega arith, tt);
}

paying : Runs before_id usd open_shop paid_shop
unfolding step
paying = call (paid_call ctx 90) tt done

-- Stripe refuses the refund of the paid order.
abbrev stripe_down : Option Error
stripe_down = some record_not_found

abbrev cancelled_shop : Db
cancelled_shop = (cancel later 7 false 11 stripe_down paid_shop).db

-- The administrator tries to ship the order, and Stripe reports the payment again.
abbrev after_that : Db
after_that =
    step before_id usd (paid_call later 90)
      (step before_id usd (status_call later 11 shipped) cancelled_shop)

onwards : Runs before_id usd cancelled_shop after_that
onwards = call (status_call later 11 shipped) tt (call (paid_call later 90) tt done)

Runs-Progress_example :
    (o' : Order) × (find 11 cancelled_shop.orders ≡ some o') × Progress open_order.status o'.status
unfolding find step cancel
Runs-Progress_example =
    Runs-Progress before_id usd 11 open_order open_shop cancelled_shop open_shop-IsSound
      (call (paid_call ctx 90) tt (call (cancel_call later 7 false 11 stripe_down) tt done)) refl

cancel-final_example :
    let again = cancel later 7 true 11 none after_that in
    (again.refunds ≡ [])
    × (again.db ≡ after_that)
    × ((why : Error) × (again.reply ≡ err why))
    × ((why : Error) × (refund_order 11 after_that ≡ err why))
unfolding mark_paid_by_payment_intent find_intent mark_paid_write mark_paid_flipped update_many
    update_row find find_where modify cancel_tx cancel_check cancel_write find_last_where
    restore_inventory ◌-ℤ◌
cancel-final_example =
    cancel-final before_id usd later later 7 7 11 false true stripe_down none paid_shop
      (after (cancel_tx later 7 false 11 paid_shop) paid_shop) after_that
      (record open_order { status = cancelled; paid_at = some 200; updated_at = 300 }, some 90)
      (Runs-IsSound before_id usd open_shop paid_shop paying open_shop-IsSound).0 refl onwards

mark_paid-final_example :
    (again : Option Order) × (mark_paid_by_payment_intent later 90 cancelled_shop
      ≡ ok (again, cancelled_shop))
unfolding mark_paid_by_payment_intent find_intent mark_paid_write mark_paid_flipped update_many
    update_row find find_where modify cancel cancel_tx cancel_check cancel_write find_last_where
    restore_inventory ◌-ℤ◌ refund_after step
mark_paid-final_example =
    mark_paid-final before_id usd ctx later 90 12 12 open_payment
      (record open_payment { status = payment_succeeded }) open_shop paid_shop cancelled_shop
      (some (record open_order { status = paid; paid_at = some 200; updated_at = 200 }))
      open_shop-IsSound refl refl (call (cancel_call later 7 false 11 stripe_down) tt done) refl
      refl

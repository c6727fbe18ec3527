-- ===== src/Payments/Tests.antt =====
-- An event for an unknown intent, and a payment intent for the sample order.
use kartit.Prelude.{◌≡◌, ◌*◌, ◌≤◌, refl, true, false, none, [], ◌∷◌}
use Prim.Native.Nat.{min}
use kartit.Prelude.Int.{pos}
use kartit.Prelude.Table.{find, find_where, IsDistinct}
use kartit.Result.{ok}
use kartit.Shared.Enums.{pending, requires_payment}
use kartit.Shared.Text.{codes}
use kartit.Store.{Db}
use kartit.Samples.{shop, usd, home, two_lamps, ctx}
use kartit.Payments.{
  StripeEvent, intent_succeeded, other_type, Inbox, receive, backoff_delay, create_payment_intent,
}
use kartit.Payments.Receipt.{receive-again}
use kartit.Payments.Intents.{create_payment_intent-again, backoff_delay_doubles}

abbrev event : StripeEvent
event = record { event_id = 500; type = intent_succeeded 90 }

abbrev inbox : Inbox
inbox = record { db = shop; events = []; retries = [] }

receive-again_example :
    receive ctx false 61
      (record { event_id = 500; type = other_type })
      (receive ctx true 60 event inbox).1
    ≡ (true, (receive ctx true 60 event inbox).1)
receive-again_example =
    receive-again ctx ctx true false 60 61 event (record { event_id = 500; type = other_type })
      inbox refl

abbrev waiting_shop : Db
waiting_shop = record shop {
  orders =
      (
        11,
        record {
          order_number = codes "KART-1";
          user_id = 7;
          status = pending;
          subtotal_minor = pos 2000;
          discount_minor = pos 0;
          shipping_minor = pos 500;
          tax_minor = pos 0;
          total_minor = pos 2500;
          promotion_id = none;
          promotion_code = none;
          currency = usd;
          ship_to = home;
          items = two_lamps ∷ [];
          paid_at = none;
          delivered_at = none;
          created_at = 100;
          updated_at = 100;
        },
      )
      ∷ [];
  payments =
      (
        12,
        record {
          order_id = 11;
          provider_payment_id = none;
          status = requires_payment;
          amount_minor = pos 2500;
          currency = usd;
          failure_reason = none;
        },
      )
      ∷ [];
}

create_payment_intent-again_example :
    create_payment_intent
      (λ pi. false)
      91
      11
      7
      (create_payment_intent (λ pi. false) 90 11 7 waiting_shop).1
    ≡ (ok 90, (create_payment_intent (λ pi. false) 90 11 7 waiting_shop).1)
unfolding create_payment_intent find find_where IsDistinct
create_payment_intent-again_example =
    create_payment_intent-again (λ pi. false) (λ pi. false) 90 91 90 11 7 waiting_shop (refl, tt)
      refl refl

backoff_delay_doubles_example :
    (backoff_delay 1 ≡ 10000)
    × (backoff_delay 3 ≡ min 86400000 (2 * backoff_delay 2))
    × (10000 ≤ backoff_delay 2)
    × (backoff_delay 2 ≤ 86400000)
backoff_delay_doubles_example = backoff_delay_doubles 1

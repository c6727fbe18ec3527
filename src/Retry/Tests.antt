-- ===== src/Retry/Tests.antt =====
-- Retries of an event whose intent is unknown, and of a refund that names no intent.
use kartit.Prelude.{◌≡◌, refl, true, none, some, [], ◌∷◌, ◌⊎◌}
use kartit.Prelude.Table.{find, find_where}
use kartit.Result.{ok, err, invalid_query}
use kartit.Samples.{shop, ctx}
use kartit.Orders.Webhook.{find_intent, mark_paid_by_payment_intent}
use kartit.Payments.{
  intent_succeeded, charge_refunded, StripeEvent, WebhookEvent, Inbox, dispatch, receive,
}
use kartit.Retry.{dispatch_retry, mark_retried, retry_job}
use kartit.Retry.Recovery.{failed_row, receive-retried}
use kartit.Retry.Equal.{dispatch_retry-dispatch, retry_job-settles}

abbrev waiting : WebhookEvent
waiting = record {
  event_id = 500;
  type = intent_succeeded 90;
  attempts = 1;
  processed_at = none;
  next_attempt_at = some 10000;
}

abbrev inbox : Inbox
inbox = record { db = shop; events = (60, waiting) ∷ []; retries = [] }

dispatch_retry-dispatch_example :
    (dispatch_retry ctx (charge_refunded none) shop ≡ dispatch ctx (charge_refunded none) shop)
    ⊎ ((charge_refunded none ≡ charge_refunded none)
        × (dispatch ctx (charge_refunded none) shop ≡ err invalid_query)
        × (dispatch_retry ctx (charge_refunded none) shop ≡ ok shop))
dispatch_retry-dispatch_example = dispatch_retry-dispatch ctx (charge_refunded none) shop

retry_job-settles_example :
    ((retry_job ctx 1 60 inbox).db ≡ shop)
    × (find 60 (retry_job ctx 1 60 inbox).events ≡ some (mark_retried 200 waiting))
    × (retry_job ctx 2 60 (retry_job ctx 1 60 inbox) ≡ retry_job ctx 1 60 inbox)
unfolding find find_where find_intent mark_paid_by_payment_intent dispatch
retry_job-settles_example = retry_job-settles ctx ctx 1 2 60 waiting inbox shop refl refl refl

abbrev nameless_refund : StripeEvent
nameless_refund = record { event_id = 501; type = charge_refunded none }

abbrev after_receipt : Inbox
after_receipt = (receive ctx true 61 nameless_refund inbox).1

abbrev after_retry : Inbox
after_retry = retry_job ctx 1 61 (record after_receipt { db = shop })

receive-retried_example :
    (after_receipt.db ≡ shop)
    × (after_receipt.retries ≡ record { webhook_event_id = 61; delay = 10000 } ∷ [])
    × (after_retry.db ≡ shop)
    × (find 61 after_retry.events ≡ some (mark_retried 200 (failed_row ctx nameless_refund)))
    × (retry_job ctx 2 61 after_retry ≡ after_retry)
    × (receive ctx true 62 nameless_refund after_retry ≡ (true, after_retry))
unfolding find find_where dispatch dispatch_retry
receive-retried_example =
    receive-retried ctx ctx 1 2 61 62 nameless_refund inbox shop shop invalid_query refl refl refl
      refl

-- ===== src/Retry/Equal.antt =====
-- The worker's handlers and the API's (apps/worker/src/workers/webhooks-retry.worker.ts and
-- apps/api/src/modules/orders/orders.payment.service.ts).
use kartit.Prelude.{
  ℕ, ◌≡◌, refl, false, Option, none, some, arith, Option-cases, inl, inr, ◌⊎◌, sym, ◌∙◌,
}
use kartit.Prelude.Table.{find, find-modify_self}
use kartit.Result.{ok, err, invalid_query, err≢ok, Result-cases}
use kartit.Shared.Text.{Text}
use kartit.Shared.Enums.{
  paid, failed, refunded, payment_failed, payment_succeeded, payment_refunded,
}
use kartit.Shared.Transitions.{}
use kartit.Inventory.{restore_inventory}
use kartit.Store.{Db, Order, Payment, update_row}
use kartit.Orders.{Ctx, update_many, set_status, was_shipped, set_payment_status}
use kartit.Orders.Webhook.{
  Intent, find_intent, mark_paid_flipped, mark_paid_write, mark_paid_by_payment_intent,
  mark_failed_flipped, mark_failed_write, mark_failed_by_payment_intent, mark_refunded_flipped,
  mark_refunded_write, mark_refunded_by_payment_intent,
}
use kartit.Payments.{
  EventType, intent_succeeded, intent_failed, charge_refunded, other_type, Inbox, WebhookEvent,
  dispatch,
}
use kartit.Retry.{
  retry_paid, retry_paid_flipped, handle_payment_intent_succeeded, retry_failed,
  retry_failed_flipped, handle_payment_intent_failed, retry_refunded, retry_refunded_flipped,
  handle_charge_refunded, db_of, dispatch_retry, mark_retried, retry_job,
}

module _ (ctx : Ctx) (i : Intent) (db : Db) where
  same_paid : db_of (retry_paid ctx i db) ≡ db_of (mark_paid_write ctx i db)
  unfolding retry_paid retry_paid_flipped mark_paid_write mark_paid_flipped update_many
  same_paid = elim (Option-cases (find i.payment.order_id db.orders)) [
    | inl e ↦ ground arith
    | inr (o, e) ↦
        let f : Order → Order =
          λ y. record y { status = paid; paid_at = some ctx.now; updated_at = ctx.now } in
        let moved = find-modify_self i.payment.order_id f db.orders o e in
        elim (Result-cases
          (update_row i.payment_id (set_payment_status payment_succeeded) db.payments)) [
            | inr (why, u) ↦ ground (arith, moved)
            | inl (t, u) ↦ ground (arith, moved)
          ]
  ]

  same_failed :
      (reason : Option Text)
      → db_of (retry_failed ctx reason i db) ≡ db_of (mark_failed_write ctx reason i db)
  unfolding retry_failed retry_failed_flipped mark_failed_write mark_failed_flipped update_many
  same_failed reason = elim (Option-cases (find i.payment.order_id db.orders)) [
    | inl e ↦ ground arith
    | inr (o, e) ↦
        let moved = find-modify_self i.payment.order_id (set_status ctx.now failed) db.orders o e in
        let f : Payment → Payment =
          λ p. record p { status = payment_failed; failure_reason = reason } in
        elim (Result-cases (update_row i.payment_id f db.payments)) [
          | inr (why, u) ↦ ground (arith, moved)
          | inl (t, u) ↦ elim (Result-cases (restore_inventory db.products i.order.items false)) [
            | inr (why, v) ↦ ground (arith, moved)
            | inl (w, v) ↦ ground (arith, moved)
          ]
        ]
  ]

  same_refunded : db_of (retry_refunded ctx i db) ≡ db_of (mark_refunded_write ctx i db)
  unfolding retry_refunded retry_refunded_flipped mark_refunded_write mark_refunded_flipped
      update_many
  same_refunded = elim (Option-cases (find i.payment.order_id db.orders)) [
    | inl e ↦ ground arith
    | inr (o, e) ↦
        let moved =
          find-modify_self i.payment.order_id (set_status ctx.now refunded) db.orders o e in
        let back = was_shipped i.order.status in
        elim (Result-cases
          (update_row i.payment_id (set_payment_status payment_refunded) db.payments)) [
            | inr (why, u) ↦ ground (arith, moved)
            | inl (t, u) ↦ elim (Result-cases (restore_inventory db.products i.order.items back)) [
              | inr (why, v) ↦ ground (arith, moved)
              | inl (w, v) ↦ ground (arith, moved)
            ]
          ]
  ]

-- A retry of an event does exactly what the API's handler of it would have done, the same error or the same database, save for a refund that names no payment intent: there the API's handler throws, and the retry succeeds and writes nothing.
pub dispatch_retry-dispatch :
    (ctx : Ctx) (type : EventType) (db : Db)
    → (dispatch_retry ctx type db ≡ dispatch ctx type db)
      ⊎ ((type ≡ charge_refunded none)
          × (dispatch ctx type db ≡ err invalid_query)
          × (dispatch_retry ctx type db ≡ ok db))
unfolding dispatch_retry dispatch handle_payment_intent_succeeded mark_paid_by_payment_intent
    handle_payment_intent_failed mark_failed_by_payment_intent handle_charge_refunded
    mark_refunded_by_payment_intent
dispatch_retry-dispatch ctx (intent_succeeded pi) db = elim (Result-cases (find_intent pi db)) [
  | inr (why, e) ↦ inl (ground arith)
  | inl (none, e) ↦ inl (ground arith)
  | inl (some i, e) ↦ inl (ground (arith, same_paid ctx i db))
]
dispatch_retry-dispatch ctx (intent_failed pi reason) db = elim (Result-cases (find_intent pi db)) [
  | inr (why, e) ↦ inl (ground arith)
  | inl (none, e) ↦ inl (ground arith)
  | inl (some i, e) ↦ inl (ground (arith, same_failed ctx i db reason))
]
dispatch_retry-dispatch ctx (charge_refunded none) db = inr (refl, refl, refl)
dispatch_retry-dispatch ctx (charge_refunded (some pi)) db =
    elim (Result-cases (find_intent pi db)) [
      | inr (why, e) ↦ inl (ground arith)
      | inl (none, e) ↦ inl (ground arith)
      | inl (some i, e) ↦ inl (ground (arith, same_refunded ctx i db))
    ]
dispatch_retry-dispatch ctx other_type db = inl refl

handled_alike :
    (ctx : Ctx) (type : EventType) (db db' : Db)
    → dispatch ctx type db ≡ ok db'
    → dispatch_retry ctx type db ≡ ok db'
handled_alike ctx type db db' handled = elim (dispatch_retry-dispatch ctx type db) [
  | inl same ↦ same ∙ handled
  | inr (_, thrown, _) ↦ absurd (err≢ok (sym thrown ∙ handled))
]

-- A retry that finds its event unprocessed, and whose handler in the API would now succeed, leaves the database as that handler would and the event processed; from then on no further retry job for the event changes anything.
pub retry_job-settles :
    (ctx later : Ctx) (n m id : ℕ) (event : WebhookEvent) (s : Inbox) (db' : Db)
    → find id s.events ≡ some event
    → event.processed_at ≡ none
    → dispatch ctx event.type s.db ≡ ok db'
    → let s' = retry_job ctx n id s in
      (s'.db ≡ db')
      × (find id s'.events ≡ some (mark_retried ctx.now event))
      × (retry_job later m id s' ≡ s')
unfolding retry_job
retry_job-settles ctx later n m id event s db' found unprocessed handled =
    let same = handled_alike ctx event.type s.db db' handled in
    let moved = find-modify_self id (mark_retried ctx.now) s.events event found in
    (ground arith, ground (arith, moved), ground (arith, moved))

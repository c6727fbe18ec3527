-- ===== src/Retry.antt =====
-- The worker that retries webhook events (apps/worker/src/workers/webhooks-retry.worker.ts): its own
-- copies of the three handlers of Stripe's events, and the job around them.
pub mod Equal
pub mod Recovery
pub mod Tests
use kartit.Prelude.{ℕ, Bool, true, false, Option, none, some, ◌==◌, if◌then◌else◌, not}
use kartit.Prelude.Table.{find, modify}
use kartit.Result.{Result, ok, err}
use kartit.Shared.Text.{Text}
use kartit.Shared.Enums.{
  pending, paid, failed, refunded, payment_succeeded, payment_failed, payment_refunded, stock_held,
}
use kartit.Shared.Transitions.{status_eq}
use kartit.Inventory.{restore_inventory}
use kartit.Store.{
  Db, Tx, ⊤, order_paid, order_refunded, order_payment_failed, pure, put, outbox_create, ◌>>=◌,
  ◌>>◌,
}
use kartit.Orders.{
  Ctx, update_many, on_products, update_payment, set_payment_status, was_shipped, set_status,
  event_payload,
}
use kartit.Orders.Webhook.{Intent, find_intent, default_reason, is_payment_status}
use kartit.Payments.{
  EventType, intent_succeeded, intent_failed, charge_refunded, other_type, WebhookEvent, Inbox,
}

-- Once the order has been flipped.
unfoldable pub retry_paid_flipped : Ctx → Intent → Tx ⊤
retry_paid_flipped ctx i = do
  update_payment i.payment_id (set_payment_status payment_succeeded)
  put (
      outbox_create ctx.outbox_id i.payment.order_id (order_paid (event_payload i.order i.payment)))

unfoldable pub retry_paid : Ctx → Intent → Tx ⊤
retry_paid ctx i = do
  count ←
      update_many i.payment.order_id (status_eq pending)
        (λ o. record o { status = paid; paid_at = some ctx.now; updated_at = ctx.now })
  if count == 1 then retry_paid_flipped ctx i else pure tt

abbrev pub retry_paid_from : Ctx → Option Intent → Tx ⊤
retry_paid_from ctx none = pure tt
retry_paid_from ctx (some i) =
    if status_eq i.order.status paid
    then pure tt
    else if not (status_eq i.order.status pending)
    then pure tt
    else retry_paid ctx i

unfoldable pub handle_payment_intent_succeeded : Ctx → ℕ → Tx ⊤
handle_payment_intent_succeeded ctx pi db = elim (find_intent pi db) [
  | err e ↦ err e
  | ok found ↦ retry_paid_from ctx found db
]

-- Once the order has been flipped.
unfoldable pub retry_failed_flipped : Ctx → Option Text → Intent → Tx ⊤
retry_failed_flipped ctx reason i = do
  update_payment i.payment_id (λ p. record p { status = payment_failed; failure_reason = reason })
  on_products (λ t. restore_inventory t i.order.items false)
  put (
      outbox_create ctx.outbox_id i.payment.order_id
        (order_payment_failed (default_reason reason) (event_payload i.order i.payment)))

unfoldable pub retry_failed : Ctx → Option Text → Intent → Tx ⊤
retry_failed ctx reason i = do
  count ← update_many i.payment.order_id (status_eq pending) (set_status ctx.now failed)
  if count == 1 then retry_failed_flipped ctx reason i else pure tt

abbrev pub retry_failed_from : Ctx → Option Text → Option Intent → Tx ⊤
retry_failed_from ctx reason none = pure tt
retry_failed_from ctx reason (some i) =
    if not (status_eq i.order.status pending) then pure tt else retry_failed ctx reason i

unfoldable pub handle_payment_intent_failed : Ctx → ℕ → Option Text → Tx ⊤
handle_payment_intent_failed ctx pi reason db = elim (find_intent pi db) [
  | err e ↦ err e
  | ok found ↦ retry_failed_from ctx reason found db
]

-- Once the order has been flipped.
unfoldable pub retry_refunded_flipped : Ctx → Intent → Tx ⊤
retry_refunded_flipped ctx i = do
  update_payment i.payment_id (set_payment_status payment_refunded)
  on_products (λ t. restore_inventory t i.order.items (was_shipped i.order.status))
  put (
      outbox_create ctx.outbox_id i.payment.order_id
        (order_refunded (event_payload i.order i.payment)))

unfoldable pub retry_refunded : Ctx → Intent → Tx ⊤
retry_refunded ctx i = do
  count ← update_many i.payment.order_id stock_held (set_status ctx.now refunded)
  if count == 1 then retry_refunded_flipped ctx i else pure tt

abbrev pub retry_refunded_from : Ctx → Option Intent → Tx ⊤
retry_refunded_from ctx none = pure tt
retry_refunded_from ctx (some i) =
    if not (is_payment_status payment_succeeded i.payment)
    then pure tt
    else if not (stock_held i.order.status)
    then pure tt
    else retry_refunded ctx i

unfoldable pub handle_charge_refunded : Ctx → ℕ → Tx ⊤
handle_charge_refunded ctx pi db = elim (find_intent pi db) [
  | err e ↦ err e
  | ok found ↦ retry_refunded_from ctx found db
]

abbrev pub db_of : {A : Type 0} → Result (A × Db) → Result Db
db_of (ok r) = ok r.1
db_of (err e) = err e

unfoldable pub dispatch_retry : Ctx → EventType → Db → Result Db
dispatch_retry ctx (intent_succeeded pi) db = db_of (handle_payment_intent_succeeded ctx pi db)
dispatch_retry ctx (intent_failed pi reason) db =
    db_of (handle_payment_intent_failed ctx pi reason db)
-- `payment_intent ?? ""`: the empty text is no payment's id, and the handler returns.
dispatch_retry ctx (charge_refunded none) db = ok db
dispatch_retry ctx (charge_refunded (some pi)) db = db_of (handle_charge_refunded ctx pi db)
dispatch_retry ctx other_type db = ok db

abbrev pub mark_retried : ℕ → WebhookEvent → WebhookEvent
mark_retried now e = record e { processed_at = some now }

-- What `worker.on("failed")` writes.
abbrev pub mark_retry_failure : ℕ → WebhookEvent → WebhookEvent
mark_retry_failure attempts_made e = record e { attempts = attempts_made; next_attempt_at = none }

abbrev pub run_event : Ctx → ℕ → ℕ → WebhookEvent → Inbox → Inbox
run_event ctx attempts_made id event s = elim (dispatch_retry ctx event.type s.db) [
  | ok db' ↦ record s { db = db'; events = modify id (mark_retried ctx.now) s.events }
  | err _ ↦ record s { events = modify id (mark_retry_failure attempts_made) s.events }
]

-- A job and, where it throws, the listener for failed jobs.
unfoldable pub retry_job : Ctx → ℕ → ℕ → Inbox → Inbox
retry_job ctx attempts_made id s = elim (find id s.events) [
  | none ↦ s
  | some event ↦ elim event.processed_at [
    | some _ ↦ s
    | none ↦ run_event ctx attempts_made id event s
  ]
]

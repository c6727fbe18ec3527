-- ===== src/Payments.antt =====
-- `paymentsService` (apps/api/src/modules/payments/payments.service.ts). What Stripe answers is an
-- argument: whether the signature holds and the event that it carries, whether an intent has ended, and
-- the id of a new one. The rows of `WebhookEvent` and the retry queue stand beside the database.
pub mod Receipt
pub mod Intents
pub mod Tests
use kartit.Prelude.{
  ℕ, ◌+◌, ◌*◌, ◌/◌, ◌^◌, Bool, true, false, Option, none, some, List, [], ◌∷◌, ◌++◌, ◌==◌,
  if◌then◌else◌, not, ltb,
}
use kartit.Prelude.Table.{Table, find, modify, insert, find_where}
use kartit.Result.{
  Result, ok, err, internal, bad_request, stripe_not_configured, invalid_signature, not_found,
  not_found_code, forbidden, conflict, invalid_status, no_payment_record, record_not_found,
  invalid_query,
}
use kartit.Shared.Text.{Text}
use kartit.Shared.Enums.{pending}
use kartit.Shared.Transitions.{status_eq}
use kartit.Store.{Db, Order, Payment, after}
use kartit.Orders.{Ctx}
use kartit.Orders.Webhook.{
  mark_paid_by_payment_intent, mark_failed_by_payment_intent, mark_refunded_by_payment_intent,
}

-- `Math.min(10_000 * Math.pow(2, attempt - 1), 86_400_000)`
unfoldable pub backoff_delay : ℕ → ℕ
backoff_delay attempt = let d = 10000 * 2 ^ attempt / 2 in if ltb 86400000 d then 86400000 else d

pub data EventType : Type 0 where
  intent_succeeded : (pi : ℕ) → EventType
  -- `payment_intent` may be null.
  charge_refunded : Option ℕ → EventType
  intent_failed : (pi : ℕ) → Option Text → EventType
  other_type : EventType

pub record StripeEvent : Type 0 where
  pub event_id : ℕ
  pub type : EventType

pub record WebhookEvent : Type 0 where
  pub event_id : ℕ
  pub type : EventType
  pub attempts : ℕ
  pub processed_at : Option ℕ
  pub next_attempt_at : Option ℕ

-- A job of the queue `webhooks-retry`.
pub record RetryJob : Type 0 where
  pub webhook_event_id : ℕ
  pub delay : ℕ

pub record Inbox : Type 0 where
  pub db : Db
  pub events : Table WebhookEvent
  pub retries : List RetryJob

-- The handler of an event, in its own transaction, and whether it threw.
unfoldable pub dispatch : Ctx → EventType → Db → Result Db
dispatch ctx (intent_succeeded pi) db = elim (mark_paid_by_payment_intent ctx pi db) [
  | ok r ↦ ok r.1
  | err e ↦ err e
]
dispatch ctx (intent_failed pi reason) db = elim (mark_failed_by_payment_intent ctx pi reason db) [
  | ok r ↦ ok r.1
  | err e ↦ err e
]
-- `charge.payment_intent as string` hands null on, and `findUnique` throws on it.
dispatch ctx (charge_refunded none) db = err invalid_query
dispatch ctx (charge_refunded (some pi)) db = elim (mark_refunded_by_payment_intent ctx pi db) [
  | ok r ↦ ok r.1
  | err e ↦ err e
]
dispatch ctx other_type db = ok db

abbrev pub new_event : StripeEvent → WebhookEvent
new_event event = record {
  event_id = event.event_id;
  type = event.type;
  attempts = 0;
  processed_at = none;
  next_attempt_at = none;
}

abbrev pub mark_processed : ℕ → WebhookEvent → WebhookEvent
mark_processed now e = record e { processed_at = some now }

abbrev pub mark_failure : ℕ → WebhookEvent → WebhookEvent
mark_failure now e = record e { attempts = 1; next_attempt_at = some (now + backoff_delay 1) }

-- `webhooksRetryQueue.add`, whose failure is only logged.
abbrev pub enqueue : Bool → ℕ → List RetryJob → List RetryJob
enqueue queue_up id retries =
    if queue_up
    then retries ++ (record { webhook_event_id = id; delay = backoff_delay 1 } ∷ [])
    else retries

-- After the row has been created under `id`.
unfoldable pub handle_event : Ctx → Bool → ℕ → StripeEvent → Inbox → Inbox
handle_event ctx queue_up id event s = elim (dispatch ctx event.type s.db) [
  | ok db' ↦ record s { db = db'; events = modify id (mark_processed ctx.now) s.events }
  | err _ ↦ record s {
    events = modify id (mark_failure ctx.now) s.events;
    retries = enqueue queue_up id s.retries;
  }
]

abbrev pub is_event : ℕ → WebhookEvent → Bool
is_event event_id e = e.event_id == event_id

-- `webhookEvent.create`, whose event id is unique: the reply's `duplicate`.
unfoldable pub receive : Ctx → Bool → ℕ → StripeEvent → Inbox → Bool × Inbox
receive ctx queue_up id event s = elim (find_where (is_event event.event_id) s.events) [
  | some _ ↦ (true, s)
  | none ↦ (
    false,
    handle_event ctx queue_up id event (record s { events = insert id (new_event event) s.events }),
  )
]

unfoldable pub process_webhook :
    (configured : Bool)
    → (constructed : Option StripeEvent) → Ctx
    → Bool
    → ℕ
    → Inbox
    → Result Bool × Inbox
process_webhook false constructed ctx queue_up id s = (err (internal stripe_not_configured), s)
process_webhook true none ctx queue_up id s = (err (bad_request invalid_signature), s)
process_webhook true (some event) ctx queue_up id s =
    let (duplicate, s') = receive ctx queue_up id event s in (ok duplicate, s')

-- `order.payments[0]`, the oldest.
abbrev pub is_payment_of : ℕ → Payment → Bool
is_payment_of order_id p = p.order_id == order_id

abbrev pub set_provider_id : ℕ → Payment → Payment
set_provider_id pi p = record p { provider_payment_id = some pi }

-- `stripe.paymentIntents.create` has made `new_intent`: the intent whose secret is returned.
abbrev pub link_intent : ℕ → ℕ → Db → Result ℕ × Db
link_intent new_intent k db =
    (ok new_intent, record db { payments = modify k (set_provider_id new_intent) db.payments })

abbrev pub intent_for : (ℕ → Bool) → ℕ → Option (ℕ × Payment) → Db → Result ℕ × Db
intent_for has_ended new_intent none db = (err (internal no_payment_record), db)
intent_for has_ended new_intent (some (k, p)) db = elim p.provider_payment_id [
  | none ↦ link_intent new_intent k db
  | some pi ↦ if has_ended pi then link_intent new_intent k db else (ok pi, db)
]

unfoldable pub create_payment_intent : (ℕ → Bool) → ℕ → ℕ → ℕ → Db → Result ℕ × Db
create_payment_intent has_ended new_intent order_id user_id db = elim (find order_id db.orders) [
  | none ↦ (err (not_found not_found_code), db)
  | some order ↦
      if not (order.user_id == user_id)
      then (err forbidden, db)
      else if not (status_eq order.status pending)
      then (err (conflict invalid_status), db)
      else intent_for has_ended new_intent (find_where (is_payment_of order_id) db.payments) db
]

-- ===== src/Retry/Recovery.antt =====
-- An event from its receipt by the API to its retry by the worker
-- (apps/api/src/modules/payments/payments.service.ts and apps/worker/src/workers/webhooks-retry.worker.ts).
use kartit.Prelude.{ℕ, ◌+◌, ◌≡◌, refl, true, some, none, [], ◌∷◌, ◌++◌, Option-cases, inl, inr}
use kartit.Prelude.Table.{find, insert, modify, find_where, find-insert_self, find-modify_self}
use kartit.Result.{Error, ok, err}
use kartit.Store.{Db}
use kartit.Orders.{Ctx}
use kartit.Payments.{
  StripeEvent, WebhookEvent, Inbox, dispatch, new_event, mark_failure, handle_event, is_event,
  receive, backoff_delay,
}
use kartit.Payments.Receipt.{IsReceived, IsReceived-modify, receive-IsReceived}
use kartit.Retry.{dispatch_retry, mark_retried, run_event, retry_job}

receive-known :
    (ctx : Ctx) (id : ℕ) (event : StripeEvent) (s : Inbox)
    → IsReceived event.event_id s.events
    → receive ctx true id event s ≡ (true, s)
unfolding receive
receive-known ctx id event s known =
    elim (Option-cases (find_where (is_event event.event_id) s.events)) [
      | inl e ↦ absurd (known e)
      | inr (row, e) ↦ rw (e, receive) refl
    ]

-- The row of an event whose handler in the API has thrown.
abbrev pub failed_row : Ctx → StripeEvent → WebhookEvent
failed_row ctx event = record (new_event event) {
  attempts = 1;
  next_attempt_at = some (ctx.now + 10000);
}

-- A new event, under a new id, whose handler in the API throws is not lost, the queue being up: the database stays as it was, a retry ten seconds later is queued, and once the worker runs it, on whatever the database has become, and its handler succeeds, what that handler wrote stands and the event is processed. From then on neither a further retry nor a redelivery by Stripe changes anything.
pub receive-retried :
    (ctx later : Ctx) (n m id other : ℕ) (event : StripeEvent) (s : Inbox) (now db' : Db)
    (why : Error)
    → find_where (is_event event.event_id) s.events ≡ none
    → find id s.events ≡ none
    → dispatch ctx event.type s.db ≡ err why
    → dispatch_retry later event.type now ≡ ok db'
    → let s' = (receive ctx true id event s).1 in
      let s'' = retry_job later n id (record s' { db = now }) in
      (s'.db ≡ s.db)
      × (s'.retries ≡ s.retries ++ (record { webhook_event_id = id; delay = 10000 } ∷ []))
      × (s''.db ≡ db')
      × (find id s''.events ≡ some (mark_retried later.now (failed_row ctx event)))
      × (retry_job later m id s'' ≡ s'')
      × (receive later true other event s'' ≡ (true, s''))
unfolding receive handle_event backoff_delay retry_job
receive-retried ctx later n m id other event s now db' why new free thrown handled =
    let t = insert id (new_event event) s.events in
    let placed = find-insert_self id (new_event event) s.events free in
    let failed = find-modify_self id (mark_failure ctx.now) t (new_event event) placed in
    let s' = (receive ctx true id event s).1 in
    let s'' = retry_job later n id (record s' { db = now }) in
    let here : find id s'.events ≡ some (failed_row ctx event) =
      rw (new, receive, thrown, handle_event) failed in
    let retried : s''
        ≡ record s' { db = db'; events = modify id (mark_retried later.now) s'.events } =
      rw (retry_job, here, run_event, handled) refl in
    let done : find id s''.events ≡ some (mark_retried later.now (failed_row ctx event)) =
      rw retried
        (find-modify_self id (mark_retried later.now) s'.events (failed_row ctx event) here) in
    (
      rw (new, receive, thrown, handle_event) refl,
      rw (new, receive, thrown, handle_event) refl,
      rw retried refl,
      done,
      rw (retry_job, done) refl,
      receive-known later other event s'' (
          rw retried (
            IsReceived-modify event.event_id id (mark_retried later.now) s'.events (λ x. refl)
              (receive-IsReceived ctx true id event s))),
    )

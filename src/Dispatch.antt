-- ===== src/Dispatch.antt =====
-- The outbox dispatcher (apps/worker/src/outbox-dispatcher.ts) and the choice of a queue
-- (apps/worker/src/queues/index.ts). What becomes of each row's `queue.add` and of the update that
-- follows it is an argument. Error texts and the timer are left out.
pub mod Delivery
pub mod Tests
use kartit.Prelude.{
  ℕ, ◌+◌, Bool, true, false, List, [], ◌∷◌, ◌++◌, ◌==◌, ◌&&◌, if◌then◌else◌, take, leb, String,
  some,
}
use kartit.Prelude.Table.{Table, modify}
use kartit.Shared.Text.{Text, codes, text_eq}
use kartit.Store.{
  OrderEvent, order_created, order_paid, order_cancelled, order_refunded, order_payment_failed,
  Outbox, OutboxStatus, outbox_pending, sent, outbox_failed,
}
use kartit.Ledger.{Job}

abbrev pub max_attempts : ℕ
max_attempts = 5

abbrev pub starts_with : Text → Text → Bool
starts_with text [] = true
starts_with [] (c ∷ prefix) = false
starts_with (d ∷ text) (c ∷ prefix) = (d == c) && starts_with text prefix

unfoldable pub get_queue_for_event : Text → Text
get_queue_for_event event_type =
    if starts_with event_type (codes "email.")
    then codes "emails"
    else if starts_with event_type (codes "reconciliation.")
    then codes "reconciliation"
    else if starts_with event_type (codes "webhook.")
    then codes "webhooks-retry"
    else if starts_with event_type (codes "inventory.")
    then codes "inventory-sweep"
    else codes "order-events"

-- `row.eventType`
abbrev pub event_type : OrderEvent → Text
event_type (order_created _) = codes "OrderCreated"
event_type (order_paid _) = codes "OrderPaid"
event_type (order_cancelled _ _) = codes "OrderCancelled"
event_type (order_refunded _) = codes "OrderRefunded"
event_type (order_payment_failed _ _) = codes "OrderPaymentFailed"

-- How the attempt on a row goes: it is queued and marked (`accepted`); or the queue refuses it; or it is
-- queued and the update that marks it throws (`unmarked`). Where the update that records a failure throws too,
-- or the process ends, the failure is `unrecorded`, before the job was queued or after it.
pub data Attempt : Type 0 where
  accepted refused unmarked refused_unrecorded unmarked_unrecorded : Attempt

-- The outbox, and the jobs that have been queued.
pub record Dispatcher : Type 0 where
  pub outbox : Table Outbox
  pub delivered : List Job

abbrev pub job_for : ℕ → Outbox → Job
job_for id row = record { outbox_id = id; aggregate_id = row.aggregate_id; event = row.event }

abbrev pub is_pending_row : Outbox → Bool
is_pending_row row = elim row.status [
  | outbox_pending ↦ true
  | sent ↦ false
  | outbox_failed ↦ false
]

-- `findMany({ where: { status: "PENDING" } })`
unfoldable pub pending_rows : Table Outbox → List (ℕ × Outbox)
pending_rows [] = []
pending_rows ((id, row) ∷ t) =
    let rest = pending_rows t in if is_pending_row row then (id, row) ∷ rest else rest

abbrev pub mark_unmapped : ℕ → Outbox → Outbox
mark_unmapped attempts row = record row { attempts = attempts + 1; status = outbox_failed }

abbrev pub mark_sent : ℕ → Outbox → Outbox
mark_sent now row = record row { status = sent; sent_at = some now }

-- The update in the `catch`, from the attempts that were read.
abbrev pub mark_failure : ℕ → Outbox → Outbox
mark_failure attempts row = record row {
  attempts = attempts + 1;
  status = if leb max_attempts (attempts + 1) then outbox_failed else outbox_pending;
}

abbrev pub attempt_row : Attempt → ℕ → ℕ → Outbox → Dispatcher → Dispatcher
attempt_row accepted now id row s = record {
  outbox = modify id (mark_sent now) s.outbox;
  delivered = s.delivered ++ (job_for id row ∷ []);
}
attempt_row refused now id row s = record s {
  outbox = modify id (mark_failure row.attempts) s.outbox;
}
attempt_row unmarked now id row s = record {
  outbox = modify id (mark_failure row.attempts) s.outbox;
  delivered = s.delivered ++ (job_for id row ∷ []);
}
attempt_row refused_unrecorded now id row s = s
attempt_row unmarked_unrecorded now id row s = record s {
  delivered = s.delivered ++ (job_for id row ∷ []);
}

-- An error outside the inner `try` ends the poll.
abbrev pub is_recorded : Attempt → Bool
is_recorded accepted = true
is_recorded refused = true
is_recorded unmarked = true
is_recorded refused_unrecorded = false
is_recorded unmarked_unrecorded = false

-- `has_queue` tells whether the queue map has the name.
module _ (has_queue : Text → Bool) where
  -- One round of the loop.
  unfoldable pub dispatch_row : (ℕ → Attempt) → ℕ → ℕ → Outbox → Dispatcher → Dispatcher
  dispatch_row attempt now id row s =
      if has_queue (get_queue_for_event (event_type row.event))
      then attempt_row (attempt id) now id row s
      else if is_recorded (attempt id)
      then record s { outbox = modify id (mark_unmapped row.attempts) s.outbox }
      else s

  unfoldable pub dispatch_rows : (ℕ → Attempt) → ℕ → List (ℕ × Outbox) → Dispatcher → Dispatcher
  dispatch_rows attempt now [] s = s
  dispatch_rows attempt now ((id, row) ∷ rows) s =
      let after = dispatch_row attempt now id row s in
      let rest = dispatch_rows attempt now rows after in
      if is_recorded (attempt id) then rest else after

  -- `reads` tells whether the read of the rows succeeds.
  unfoldable pub poll : ℕ → Bool → (ℕ → Attempt) → ℕ → Dispatcher → Dispatcher
  poll batch_size reads attempt now s =
      if reads then dispatch_rows attempt now (take batch_size (pending_rows s.outbox)) s else s

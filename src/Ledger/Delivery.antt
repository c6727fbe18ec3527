-- ===== src/Ledger/Delivery.antt =====
-- A redelivered event (apps/worker/src/workers/order-events.worker.ts): the dispatcher may hand the
-- worker one outbox row more than once.
use kartit.Prelude.{
  ℕ, ◌≡◌, refl, ◌∙◌, Bool, true, List, [], ◌∷◌, ◌++◌, arith, ◌||◌, map, any, Bool-cases, inl, inr,
}
use kartit.Store.{
  OrderEvent, order_created, order_paid, order_refunded, order_cancelled, order_payment_failed,
}
use kartit.Ledger.{
  Entry, LedgerEntry, Job, has_reference, ledger_row, write_ledger_entries, process, process_all,
}

any-append :
    (p : LedgerEntry → Bool) (xs ys : List LedgerEntry) → any p (xs ++ ys) ≡ (any p xs || any p ys)
any-append p [] ys = refl
any-append p (x ∷ xs) ys = ground (arith, any-append p xs ys)

module _ (outbox_id order_id : ℕ) (e : Entry) (entries : List Entry) where
  written :
      (ledger : List LedgerEntry)
      → any (has_reference outbox_id) (write_ledger_entries outbox_id order_id (e ∷ entries) ledger)
        ≡ true
  unfolding write_ledger_entries
  written ledger = elim (Bool-cases (any (has_reference outbox_id) ledger)) [
    | inl h ↦ rw h h
    | inr h ↦ rw h (
        any-append (has_reference outbox_id) ledger
          (map (ledger_row outbox_id order_id) (e ∷ entries))
        ∙ ground arith)
  ]

-- Nothing that is recorded goes.
write-keeps :
    (k outbox_id order_id : ℕ) (entries : List Entry) (ledger : List LedgerEntry)
    → any (has_reference k) ledger ≡ true
    → any (has_reference k) (write_ledger_entries outbox_id order_id entries ledger) ≡ true
unfolding write_ledger_entries
write-keeps k outbox_id order_id entries ledger h =
    elim (Bool-cases (any (has_reference outbox_id) ledger)) [
      | inl e ↦ rw e h
      | inr e ↦ rw e (
          any-append (has_reference k) ledger (map (ledger_row outbox_id order_id) entries)
          ∙ ground arith)
    ]

-- The job's entries are in the ledger, where it has any.
abbrev IsRecorded : Job → List LedgerEntry → Type 0
IsRecorded job ledger = elim job.event [
  | order_paid _ ↦ any (has_reference job.outbox_id) ledger ≡ true
  | order_refunded _ ↦ any (has_reference job.outbox_id) ledger ≡ true
  | _ ↦ Unit
]

process-keeps :
    (k : ℕ) (job : Job) (ledger : List LedgerEntry)
    → any (has_reference k) ledger ≡ true
    → any (has_reference k) (process job ledger) ≡ true
unfolding process
process-keeps k job ledger h =
    elim job.event
      as (λ v. any (has_reference k) (process (record job { event = v }) ledger) ≡ true) [
        | order_created p ↦ h
        | order_paid p ↦ write-keeps k job.outbox_id job.aggregate_id _ ledger h
        | order_cancelled w u ↦ h
        | order_refunded p ↦ write-keeps k job.outbox_id job.aggregate_id _ ledger h
        | order_payment_failed r p ↦ h
      ]

abbrev job_of : OrderEvent → ℕ → ℕ → Job
job_of event outbox_id order_id = record {
  outbox_id = outbox_id;
  aggregate_id = order_id;
  event = event;
}

process-IsRecorded :
    (event : OrderEvent) (outbox_id order_id : ℕ) (ledger : List LedgerEntry)
    → let job = job_of event outbox_id order_id in IsRecorded job (process job ledger)
unfolding process
process-IsRecorded (order_created p) outbox_id order_id ledger = tt
process-IsRecorded (order_paid p) outbox_id order_id ledger = written outbox_id order_id _ _ ledger
process-IsRecorded (order_cancelled w u) outbox_id order_id ledger = tt
process-IsRecorded (order_refunded p) outbox_id order_id ledger =
    written outbox_id order_id _ _ ledger
process-IsRecorded (order_payment_failed r p) outbox_id order_id ledger = tt

IsRecorded-later :
    (event : OrderEvent) (outbox_id order_id : ℕ) (job : Job) (ledger : List LedgerEntry)
    → let first = job_of event outbox_id order_id in
      IsRecorded first ledger → IsRecorded first (process job ledger)
IsRecorded-later (order_created p) outbox_id order_id job ledger h = tt
IsRecorded-later (order_paid p) outbox_id order_id job ledger h =
    process-keeps outbox_id job ledger h
IsRecorded-later (order_cancelled w u) outbox_id order_id job ledger h = tt
IsRecorded-later (order_refunded p) outbox_id order_id job ledger h =
    process-keeps outbox_id job ledger h
IsRecorded-later (order_payment_failed r p) outbox_id order_id job ledger h = tt

process-recorded :
    (event : OrderEvent) (outbox_id order_id : ℕ) (ledger : List LedgerEntry)
    → let job = job_of event outbox_id order_id in
      IsRecorded job ledger → process job ledger ≡ ledger
unfolding process write_ledger_entries
process-recorded (order_created p) outbox_id order_id ledger h = refl
process-recorded (order_paid p) outbox_id order_id ledger h = rw h refl
process-recorded (order_cancelled w u) outbox_id order_id ledger h = refl
process-recorded (order_refunded p) outbox_id order_id ledger h = rw h refl
process-recorded (order_payment_failed r p) outbox_id order_id ledger h = refl

process_all-IsRecorded :
    (first : Job) (jobs : List Job) (ledger : List LedgerEntry)
    → IsRecorded first ledger
    → IsRecorded first (process_all jobs ledger)
unfolding process_all
process_all-IsRecorded first [] ledger h = h
process_all-IsRecorded first (job ∷ jobs) ledger h =
    process_all-IsRecorded first jobs (process job ledger)
      (IsRecorded-later first.event first.outbox_id first.aggregate_id job ledger h)

-- An event that the worker has handled once changes the ledger no more: delivered again after any other events, it leaves the ledger as it is.
pub process-redelivered :
    (job : Job) (later : List Job) (ledger : List LedgerEntry)
    → let reached = process_all (job ∷ later) ledger in process job reached ≡ reached
unfolding process_all
process-redelivered job later ledger =
    process-recorded job.event job.outbox_id job.aggregate_id (process_all (job ∷ later) ledger) (
      process_all-IsRecorded job later (process job ledger)
        (process-IsRecorded job.event job.outbox_id job.aggregate_id ledger))

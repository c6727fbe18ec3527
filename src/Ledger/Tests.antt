-- ===== src/Ledger/Tests.antt =====
-- A payment and its refund, delivered to the ledger.
use kartit.Prelude.{◌≡◌, some, [], ◌∷◌}
use kartit.Prelude.Int.{pos}
use kartit.Shared.Text.{codes}
use kartit.Store.{EventPayload, order_paid, order_refunded}
use kartit.Samples.{usd}
use kartit.Ledger.{Job, process, process_all, summary}
use kartit.Ledger.Delivery.{process-redelivered}
use kartit.Ledger.Even.{summary-process_all}

abbrev payload : EventPayload
payload = record {
  order_number = codes "KART-1";
  total_minor = pos 2500;
  currency = usd;
  user_id = 7;
  provider_payment_id = some 90;
}

abbrev paid_job : Job
paid_job = record { outbox_id = 1; aggregate_id = 11; event = order_paid payload }

abbrev refunded_job : Job
refunded_job = record { outbox_id = 2; aggregate_id = 11; event = order_refunded payload }

process-redelivered_example :
    process paid_job (process_all (paid_job ∷ refunded_job ∷ []) [])
    ≡ process_all (paid_job ∷ refunded_job ∷ []) []
process-redelivered_example = process-redelivered paid_job (refunded_job ∷ []) []

summary-process_all_example :
    (summary (process_all (paid_job ∷ refunded_job ∷ paid_job ∷ []) [])).total_debit
    ≡ (summary (process_all (paid_job ∷ refunded_job ∷ paid_job ∷ []) [])).total_credit
summary-process_all_example = summary-process_all (paid_job ∷ refunded_job ∷ paid_job ∷ [])

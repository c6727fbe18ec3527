-- ===== src/Dispatch/Tests.antt =====
-- A poll over one row at its last attempt, whose update fails after its job is queued.
use kartit.Prelude.{ℕ, Bool, true, none, some, [], ◌∷◌, arith}
use kartit.Prelude.Int.{pos}
use kartit.Prelude.Table.{find}
use kartit.Shared.Text.{Text, codes}
use kartit.Store.{Outbox, order_paid, outbox_pending}
use kartit.Samples.{usd}
use kartit.Dispatch.{Attempt, unmarked, Dispatcher, poll}
use kartit.Dispatch.Delivery.{IsTracked, poll-IsTracked}

abbrev last_chance : Outbox
last_chance = record {
  aggregate_id = 11;
  event = order_paid (record {
    order_number = codes "KART-1";
    total_minor = pos 2500;
    currency = usd;
    user_id = 7;
    provider_payment_id = some 90;
  });
  status = outbox_pending;
  attempts = 4;
  sent_at = none;
}

abbrev waiting : Dispatcher
waiting = record { outbox = (1, last_chance) ∷ []; delivered = [] }

abbrev all_queues : Text → Bool
all_queues name = true

abbrev database_down : ℕ → Attempt
database_down id = unmarked

waiting-IsTracked : IsTracked waiting
unfolding find
waiting-IsTracked id row e = ground arith

poll-IsTracked_example : IsTracked (poll all_queues 50 true database_down 900 waiting)
poll-IsTracked_example =
    poll-IsTracked all_queues database_down 900 50 true waiting waiting-IsTracked

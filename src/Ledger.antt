-- ===== src/Ledger.antt =====
-- The double-entry ledger: the worker that writes it (apps/worker/src/workers/order-events.worker.ts)
-- and the summary that reads it (apps/api/src/modules/ledger/ledger.service.ts). Memos are left out.
pub mod Delivery
pub mod Even
pub mod Tests
use kartit.Prelude.{
  ℕ, ◌+◌, Bool, true, false, Option, none, some, List, [], ◌∷◌, ◌++◌, ◌==◌, if◌then◌else◌, map, any,
}
use kartit.Prelude.Int.{ℤ, pos, ◌+ℤ◌, ◌-ℤ◌}
use kartit.Store.{
  OrderEvent, order_created, order_paid, order_refunded, order_cancelled, order_payment_failed,
}

pub data Account : Type 0 where
  cash refunds revenue : Account

pub data Direction : Type 0 where
  debit credit : Direction

-- What the worker hands to `writeLedgerEntries` for a row.
pub record Entry : Type 0 where
  pub account : Account
  pub direction : Direction
  pub amount_minor : ℤ

-- A row of the ledger, its reference `outbox:<id>` as the id.
pub record LedgerEntry : Type 0 where
  pub entry : Entry
  pub order_id : ℕ
  pub reference : ℕ

-- `job.data`
pub record Job : Type 0 where
  pub outbox_id : ℕ
  pub aggregate_id : ℕ
  pub event : OrderEvent

abbrev pub has_reference : ℕ → LedgerEntry → Bool
has_reference outbox_id e = e.reference == outbox_id

abbrev pub ledger_row : ℕ → ℕ → Entry → LedgerEntry
ledger_row outbox_id order_id e = record { entry = e; order_id = order_id; reference = outbox_id }

unfoldable pub write_ledger_entries : ℕ → ℕ → List Entry → List LedgerEntry → List LedgerEntry
write_ledger_entries outbox_id order_id entries ledger =
    if any (has_reference outbox_id) ledger
    then ledger
    else ledger ++ map (ledger_row outbox_id order_id) entries

abbrev pub entry : Account → Direction → ℤ → Entry
entry a d n = record { account = a; direction = d; amount_minor = n }

-- The worker's handler.
unfoldable pub process : Job → List LedgerEntry → List LedgerEntry
process job ledger = elim job.event [
  | order_created _ ↦ ledger
  | order_paid payload ↦
      write_ledger_entries job.outbox_id job.aggregate_id
        (entry cash debit payload.total_minor ∷ entry revenue credit payload.total_minor ∷ [])
        ledger
  | order_cancelled _ _ ↦ ledger
  | order_refunded payload ↦
      write_ledger_entries job.outbox_id job.aggregate_id
        (entry refunds debit payload.total_minor ∷ entry cash credit payload.total_minor ∷ [])
        ledger
  | order_payment_failed _ _ ↦ ledger
]

-- Deliveries, one after another.
unfoldable pub process_all : List Job → List LedgerEntry → List LedgerEntry
process_all [] ledger = ledger
process_all (job ∷ jobs) ledger = process_all jobs (process job ledger)

abbrev pub account_index : Account → ℕ
account_index cash = 0
account_index refunds = 1
account_index revenue = 2

-- The row of the map for one account.
pub record Balance : Type 0 where
  pub total_debit : ℤ
  pub total_credit : ℤ
  pub entry_count : ℕ

abbrev pub debit_of : Entry → ℤ
debit_of e = elim e.direction [ debit ↦ e.amount_minor | credit ↦ pos 0 ]

abbrev pub credit_of : Entry → ℤ
credit_of e = elim e.direction [ debit ↦ pos 0 | credit ↦ e.amount_minor ]

abbrev pub add_entry : Entry → Balance → Balance
add_entry e acc = record {
  total_debit = acc.total_debit +ℤ debit_of e;
  total_credit = acc.total_credit +ℤ credit_of e;
  entry_count = acc.entry_count + 1;
}

abbrev pub no_entries : Balance
no_entries = record { total_debit = pos 0; total_credit = pos 0; entry_count = 0 }

-- One round of the loop of `aggregate`: the map keeps the order in which its keys came.
unfoldable pub add_to_map : Entry → List (Account × Balance) → List (Account × Balance)
add_to_map e [] = (e.account, add_entry e no_entries) ∷ []
add_to_map e ((a, b) ∷ accounts) =
    if account_index a == account_index e.account
    then (a, add_entry e b) ∷ accounts
    else (a, b) ∷ add_to_map e accounts

unfoldable pub fill_map : List LedgerEntry → List (Account × Balance) → List (Account × Balance)
fill_map [] accounts = accounts
fill_map (e ∷ entries) accounts = fill_map entries (add_to_map e.entry accounts)

abbrev pub is_asset_or_expense : Account → Bool
is_asset_or_expense cash = true
is_asset_or_expense refunds = true
is_asset_or_expense revenue = false

-- `AccountBalance`
pub record AccountBalance : Type 0 where
  pub account : Account
  pub total_debit : ℤ
  pub total_credit : ℤ
  pub balance : ℤ
  pub entry_count : ℕ

abbrev pub to_account_balance : Account × Balance → AccountBalance
to_account_balance (a, b) = record {
  account = a;
  total_debit = b.total_debit;
  total_credit = b.total_credit;
  balance =
      if is_asset_or_expense a
      then b.total_debit -ℤ b.total_credit
      else b.total_credit -ℤ b.total_debit;
  entry_count = b.entry_count;
}

-- The rows that the query returns, in the order of their accounts, are the argument.
unfoldable pub aggregate : List LedgerEntry → List AccountBalance
aggregate entries = map to_account_balance (fill_map entries [])

pub record LedgerSummary : Type 0 where
  pub accounts : List AccountBalance
  pub total_debit : ℤ
  pub total_credit : ℤ

unfoldable pub sum_debits : ℤ → List AccountBalance → ℤ
sum_debits acc [] = acc
sum_debits acc (a ∷ accounts) = sum_debits (acc +ℤ a.total_debit) accounts

unfoldable pub sum_credits : ℤ → List AccountBalance → ℤ
sum_credits acc [] = acc
sum_credits acc (a ∷ accounts) = sum_credits (acc +ℤ a.total_credit) accounts

unfoldable pub summary : List LedgerEntry → LedgerSummary
summary entries =
    let accounts = aggregate entries in
    record {
      accounts = accounts;
      total_debit = sum_debits (pos 0) accounts;
      total_credit = sum_credits (pos 0) accounts;
    }

-- ===== src/Ledger/Even.antt =====
-- Debits and credits (apps/worker/src/workers/order-events.worker.ts and
-- apps/api/src/modules/ledger/ledger.service.ts).
use kartit.Prelude.{ℕ, ◌≡◌, refl, List, [], ◌∷◌, ◌++◌, ◌==◌, map, any, Bool-cases, inl, inr}
use kartit.Prelude.Int.{ℤ, pos, ◌+ℤ◌, int_laws, parts_of_eq}
use kartit.Store.{order_created, order_paid, order_refunded, order_cancelled, order_payment_failed}
use kartit.Ledger.{
  Account, Balance, Entry, LedgerEntry, Job, debit_of, credit_of, add_to_map, fill_map,
  account_index, has_reference, ledger_row, write_ledger_entries, process, process_all,
  to_account_balance, aggregate, sum_debits, sum_credits, summary,
}

-- A sum over the rows of the ledger.
unfoldable pub total : (Entry → ℤ) → List LedgerEntry → ℤ
total w [] = pos 0
total w (e ∷ entries) = w e.entry +ℤ total w entries

total-append :
    (w : Entry → ℤ) (xs ys : List LedgerEntry) → total w (xs ++ ys) ≡ total w xs +ℤ total w ys
unfolding total
total-append w [] ys = omega int_laws
total-append w (x ∷ xs) ys = omega (int_laws, parts_of_eq (total-append w xs ys))

-- Over the accounts of the map.
unfoldable map_total : (Balance → ℤ) → List (Account × Balance) → ℤ
map_total g [] = pos 0
map_total g ((_, b) ∷ accounts) = g b +ℤ map_total g accounts

map_total-debits :
    (e : Entry) (accounts : List (Account × Balance))
    → map_total (λ b. b.total_debit) (add_to_map e accounts)
      ≡ map_total (λ b. b.total_debit) accounts +ℤ debit_of e
unfolding map_total add_to_map
map_total-debits e [] = omega int_laws
map_total-debits e ((a, b) ∷ accounts) =
    elim (Bool-cases (account_index a == account_index e.account)) [
      | inl h ↦ rw h (omega int_laws)
      | inr h ↦ rw h (omega (int_laws, parts_of_eq (map_total-debits e accounts)))
    ]

map_total-credits :
    (e : Entry) (accounts : List (Account × Balance))
    → map_total (λ b. b.total_credit) (add_to_map e accounts)
      ≡ map_total (λ b. b.total_credit) accounts +ℤ credit_of e
unfolding map_total add_to_map
map_total-credits e [] = omega int_laws
map_total-credits e ((a, b) ∷ accounts) =
    elim (Bool-cases (account_index a == account_index e.account)) [
      | inl h ↦ rw h (omega int_laws)
      | inr h ↦ rw h (omega (int_laws, parts_of_eq (map_total-credits e accounts)))
    ]

fill_map-totals :
    (entries : List LedgerEntry) (accounts : List (Account × Balance))
    → (map_total (λ b. b.total_debit) (fill_map entries accounts)
        ≡ map_total (λ b. b.total_debit) accounts +ℤ total debit_of entries)
      × (map_total (λ b. b.total_credit) (fill_map entries accounts)
          ≡ map_total (λ b. b.total_credit) accounts +ℤ total credit_of entries)
unfolding fill_map total
fill_map-totals [] accounts = (omega int_laws, omega int_laws)
fill_map-totals (e ∷ entries) accounts =
    let (d, c) = fill_map-totals entries (add_to_map e.entry accounts) in
    (
      omega (int_laws, parts_of_eq d, parts_of_eq (map_total-debits e.entry accounts)),
      omega (int_laws, parts_of_eq c, parts_of_eq (map_total-credits e.entry accounts)),
    )

sum_debits-map_total :
    (acc : ℤ) (accounts : List (Account × Balance))
    → sum_debits acc (map to_account_balance accounts)
      ≡ acc +ℤ map_total (λ b. b.total_debit) accounts
unfolding sum_debits map_total
sum_debits-map_total acc [] = omega int_laws
sum_debits-map_total acc ((a, b) ∷ accounts) =
    omega (int_laws, parts_of_eq (sum_debits-map_total (acc +ℤ b.total_debit) accounts))

sum_credits-map_total :
    (acc : ℤ) (accounts : List (Account × Balance))
    → sum_credits acc (map to_account_balance accounts)
      ≡ acc +ℤ map_total (λ b. b.total_credit) accounts
unfolding sum_credits map_total
sum_credits-map_total acc [] = omega int_laws
sum_credits-map_total acc ((a, b) ∷ accounts) =
    omega (int_laws, parts_of_eq (sum_credits-map_total (acc +ℤ b.total_credit) accounts))

summary-totals :
    (entries : List LedgerEntry)
    → ((summary entries).total_debit ≡ total debit_of entries)
      × ((summary entries).total_credit ≡ total credit_of entries)
unfolding summary aggregate map_total
summary-totals entries =
    let (d, c) = fill_map-totals entries [] in
    (
      omega (
        int_laws,
        parts_of_eq d,
        parts_of_eq (sum_debits-map_total (pos 0) (fill_map entries [])),
      ),
      omega (
        int_laws,
        parts_of_eq c,
        parts_of_eq (sum_credits-map_total (pos 0) (fill_map entries [])),
      ),
    )

-- As much on the debit side as on the credit side.
abbrev IsEven : List LedgerEntry → Type 0
IsEven entries = total debit_of entries ≡ total credit_of entries

write-IsEven :
    (outbox_id order_id : ℕ) (entries : List Entry) (ledger : List LedgerEntry)
    → IsEven (map (ledger_row outbox_id order_id) entries)
    → IsEven ledger
    → IsEven (write_ledger_entries outbox_id order_id entries ledger)
unfolding write_ledger_entries
write-IsEven outbox_id order_id entries ledger new old =
    elim (Bool-cases (any (has_reference outbox_id) ledger)) [
      | inl e ↦ rw e old
      | inr e ↦ rw e (
          omega (
            int_laws,
            parts_of_eq new,
            parts_of_eq old,
            parts_of_eq
                (total-append debit_of ledger (map (ledger_row outbox_id order_id) entries)),
            parts_of_eq
                (total-append credit_of ledger (map (ledger_row outbox_id order_id) entries)),
          ))
    ]

process-IsEven :
    (job : Job) (ledger : List LedgerEntry) → IsEven ledger → IsEven (process job ledger)
unfolding process total
process-IsEven job ledger h =
    elim job.event as (λ v. IsEven (process (record job { event = v }) ledger)) [
      | order_created p ↦ h
      | order_paid p ↦ write-IsEven job.outbox_id job.aggregate_id _ ledger (omega int_laws) h
      | order_cancelled w u ↦ h
      | order_refunded p ↦ write-IsEven job.outbox_id job.aggregate_id _ ledger (omega int_laws) h
      | order_payment_failed r p ↦ h
    ]

process_all-IsEven :
    (jobs : List Job) (ledger : List LedgerEntry) → IsEven ledger → IsEven (process_all jobs ledger)
unfolding process_all
process_all-IsEven [] ledger h = h
process_all-IsEven (job ∷ jobs) ledger h =
    process_all-IsEven jobs (process job ledger) (process-IsEven job ledger h)

-- After any deliveries of any events to an empty ledger, in whatever order and however often each is repeated, the summary's total of debits is its total of credits.
pub summary-process_all :
    (jobs : List Job)
    → (summary (process_all jobs [])).total_debit ≡ (summary (process_all jobs [])).total_credit
unfolding total
summary-process_all jobs =
    let (d, c) = summary-totals (process_all jobs []) in
    let even = process_all-IsEven jobs [] refl in
    omega (int_laws, parts_of_eq d, parts_of_eq c, parts_of_eq even)

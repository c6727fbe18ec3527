-- ===== src/Dispatch/Delivery.antt =====
-- No row is marked as sent before its job is in the queue (apps/worker/src/outbox-dispatcher.ts).
use kartit.Prelude.{
  ℕ, ◌<◌, ◌≡◌, ◌∙◌, Bool, true, false, some, List, [], ◌∷◌, ◌++◌, ◌==◌, arith, any, sym, subst,
  Option-cases, leb, ◌+◌, take, Bool-cases, inl, inr,
}
use kartit.Prelude.Table.{Table, find, modify, find-modify}
use kartit.Shared.Text.{Text}
use kartit.Store.{Outbox, outbox_pending, sent, outbox_failed}
use kartit.Ledger.{Job}
use kartit.Dispatch.{
  Attempt, accepted, refused, unmarked, refused_unrecorded, unmarked_unrecorded, is_recorded,
  Dispatcher, job_for, mark_unmapped, mark_sent, mark_failure, attempt_row, dispatch_row,
  dispatch_rows, get_queue_for_event, event_type, pending_rows, poll, max_attempts,
}

abbrev is_job : ℕ → Job → Bool
is_job id job = job.outbox_id == id

-- A sent row's job has been queued; a pending row has attempts left.
abbrev pub IsRowTracked : List Job → ℕ → Outbox → Type 0
IsRowTracked delivered id row = elim row.status [
  | outbox_pending ↦ row.attempts < max_attempts
  | sent ↦ any (is_job id) delivered ≡ true
  | outbox_failed ↦ Unit
]

abbrev pub IsTracked : Dispatcher → Type 0
IsTracked s =
    (id : ℕ) (row : Outbox) → find id s.outbox ≡ some row → IsRowTracked s.delivered id row

any-queued :
    (id : ℕ) (jobs : List Job) (job : Job)
    → any (is_job id) jobs ≡ true
    → any (is_job id) (jobs ++ (job ∷ [])) ≡ true
any-queued id [] job h = cc
any-queued id (x ∷ jobs) job h = ground (arith, any-queued id jobs job)

any-last :
    (id : ℕ) (jobs : List Job) (row : Outbox)
    → any (is_job id) (jobs ++ (job_for id row ∷ [])) ≡ true
any-last id [] row = ground arith
any-last id (x ∷ jobs) row = ground (arith, any-last id jobs row)

IsRowTracked-queued :
    (jobs : List Job) (job : Job) (id : ℕ) (row : Outbox)
    → IsRowTracked jobs id row
    → IsRowTracked (jobs ++ (job ∷ [])) id row
IsRowTracked-queued jobs job id row h =
    elim row.status
        as (λ v.
          IsRowTracked jobs id (record row { status = v })
          → IsRowTracked (jobs ++ (job ∷ [])) id (record row { status = v })) [
            | outbox_pending ↦ λ k. k
            | sent ↦ λ k. any-queued id jobs job k
            | outbox_failed ↦ λ k. k
          ]
      h

-- One row rewritten, to one that is tracked, while the others stay tracked.
IsTracked-modify :
    (k : ℕ) (f : Outbox → Outbox) (t : Table Outbox) (delivered jobs : List Job)
    → ((x : Outbox) → IsRowTracked jobs k (f x))
    → ((id : ℕ) (x : Outbox) → IsRowTracked delivered id x → IsRowTracked jobs id x)
    → IsTracked (record { outbox = t; delivered = delivered })
    → IsTracked (record { outbox = modify k f t; delivered = jobs })
IsTracked-modify k f t delivered jobs new kept h = λ id row e. elim (Bool-cases (id == k)) [
  | inr other ↦ kept id row (h id row (sym (find_other id other) ∙ e))
  | inl same ↦ elim (Option-cases (find id t)) [
    | inl absent ↦ absurd (ground (arith, find-modify id k f t))
    | inr (x, here) ↦
        let at_k : id ≡ k = ground arith in
        let rewritten : f x ≡ row = ground (arith, find-modify id k f t) in
        subst (λ j. IsRowTracked jobs j row) (sym at_k)
          (subst (λ y. IsRowTracked jobs k y) rewritten (new x))
  ]
]
  where
    find_other : (id : ℕ) → (id == k) ≡ false → find id (modify k f t) ≡ find id t
    find_other id other = ground (arith, find-modify id k f t)

mark_failure-IsRowTracked :
    (attempts : ℕ) (jobs : List Job) (k : ℕ) (x : Outbox)
    → IsRowTracked jobs k (mark_failure attempts x)
mark_failure-IsRowTracked attempts jobs k x = elim (Bool-cases (leb max_attempts (attempts + 1))) [
  | inl e ↦ rw e tt
  | inr e ↦ rw e (ground arith)
]

attempt_row-IsTracked :
    (a : Attempt) (now id : ℕ) (row : Outbox) (s : Dispatcher)
    → IsTracked s
    → IsTracked (attempt_row a now id row s)
attempt_row-IsTracked accepted now id row s h =
    IsTracked-modify id (mark_sent now) s.outbox s.delivered (s.delivered ++ (job_for id row ∷ []))
      (λ x. any-last id s.delivered row) (IsRowTracked-queued s.delivered (job_for id row)) h
attempt_row-IsTracked refused now id row s h =
    IsTracked-modify id (mark_failure row.attempts) s.outbox s.delivered s.delivered
      (mark_failure-IsRowTracked row.attempts s.delivered id) (λ j x k. k) h
attempt_row-IsTracked unmarked now id row s h =
    IsTracked-modify id (mark_failure row.attempts) s.outbox s.delivered
      (s.delivered ++ (job_for id row ∷ []))
      (mark_failure-IsRowTracked row.attempts (s.delivered ++ (job_for id row ∷ [])) id)
      (IsRowTracked-queued s.delivered (job_for id row)) h
attempt_row-IsTracked refused_unrecorded now id row s h = h
attempt_row-IsTracked unmarked_unrecorded now id row s h =
    λ j x e. IsRowTracked-queued s.delivered (job_for id row) j x (h j x e)

module _ (has_queue : Text → Bool) (attempt : ℕ → Attempt) (now : ℕ) where
  dispatch_row-IsTracked :
      (id : ℕ) (row : Outbox) (s : Dispatcher)
      → IsTracked s
      → IsTracked (dispatch_row has_queue attempt now id row s)
  unfolding dispatch_row
  dispatch_row-IsTracked id row s h =
      elim (Bool-cases (has_queue (get_queue_for_event (event_type row.event)))) [
        | inl e ↦ rw (e, dispatch_row) (attempt_row-IsTracked (attempt id) now id row s h)
        | inr e ↦ elim (Bool-cases (is_recorded (attempt id))) [
          | inl written ↦
              rw (e, dispatch_row, written)
                (IsTracked-modify id (mark_unmapped row.attempts) s.outbox s.delivered s.delivered
                  (λ x. tt) (λ j x k. k) h)
          | inr lost ↦ rw (e, dispatch_row, lost) h
        ]
      ]

  dispatch_rows-IsTracked :
      (rows : List (ℕ × Outbox)) (s : Dispatcher)
      → IsTracked s
      → IsTracked (dispatch_rows has_queue attempt now rows s)
  unfolding dispatch_rows
  dispatch_rows-IsTracked [] s h = h
  dispatch_rows-IsTracked ((id, row) ∷ rows) s h =
      let after = dispatch_row-IsTracked id row s h in
      elim (Bool-cases (is_recorded (attempt id))) [
        | inl e ↦
            rw (e, dispatch_rows)
              (dispatch_rows-IsTracked rows (dispatch_row has_queue attempt now id row s) after)
        | inr e ↦ rw (e, dispatch_rows) after
      ]

  -- Delivery at least once: whether the read of the rows succeeds or throws, and whatever becomes of each row (it is queued or refused, its update or the update that records the failure throws and ends the poll, or the process ends before or after the job is queued), if before it every row marked as sent had its job in the queue and every pending row had attempts left, so it is after it.
  pub poll-IsTracked :
      (batch_size : ℕ) (reads : Bool) (s : Dispatcher)
      → IsTracked s
      → IsTracked (poll has_queue batch_size reads attempt now s)
  unfolding poll
  poll-IsTracked batch_size true s h =
      dispatch_rows-IsTracked (take batch_size (pending_rows s.outbox)) s h
  poll-IsTracked batch_size false s h = h

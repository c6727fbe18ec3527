-- ===== src/Refunds/Once.antt =====
-- One request for an order, and one refund for a request
-- (apps/api/src/modules/orders/orders.refund-request.service.ts).
use kartit.Prelude.{
  ℕ, ◌≡◌, ◌≤◌, Bool, false, Option, none, some, [], ◌∷◌, arith, ◌==◌, Option-cases, Bool-cases, inl,
  inr,
}
use kartit.Prelude.Table.{Table, find, insert, find_where, count, find-modify_self}
use kartit.Result.{Result, ok, conflict, already_processed, Result-cases}
use kartit.Shared.Text.{Text}
use kartit.Shared.Enums.{delivered}
use kartit.Store.{Db, Order, RefundRequest, approved, rejected, after, ⊤}
use kartit.Refunds.{
  deadline, is_request_of, new_request, create_request, request, is_pending, review, approval_error,
  approve_marked, approve_write, reject_write,
}

count_append :
    (test : RefundRequest → Bool) (k : ℕ) (r : RefundRequest) (t : Table RefundRequest)
    → test r ≡ false
    → count test (insert k r t) ≡ count test t
unfolding count
count_append test k r [] h = ground arith
count_append test k r ((j, x) ∷ t) h = ground (arith, count_append test k r t h)

count_one :
    (test : RefundRequest → Bool) (k : ℕ) (r : RefundRequest) (t : Table RefundRequest)
    → find_where test t ≡ none
    → count test (insert k r t) ≤ 1
unfolding count find_where
count_one test k r [] h = ground arith
count_one test k r ((j, x) ∷ t) h = ground (arith, count_one test k r t)

-- No order has more than one refund request.
abbrev pub IsSingle : Table RefundRequest → Type 0
IsSingle t = (order_id : ℕ) → count (is_request_of order_id) t ≤ 1

create_request-IsSingle :
    (request_id user_id order_id : ℕ) (reason : Option Text) (db : Db)
    → IsSingle db.refund_requests
    → IsSingle (after (create_request request_id user_id order_id reason db) db).refund_requests
unfolding create_request
create_request-IsSingle request_id user_id order_id reason db h =
    elim (Option-cases (find_where (is_request_of order_id) db.refund_requests)) [
      | inr (row, e) ↦ rw (e, create_request) h
      | inl e ↦
          rw (e, create_request)
            (λ k. elim (Bool-cases (order_id == k)) [
              | inl same ↦
                  let same_id : order_id ≡ k = ground arith in
                  count_one (is_request_of k) request_id (new_request user_id order_id reason)
                    db.refund_requests (rw same_id at e)
              | inr other ↦
                  rw
                    (count_append (is_request_of k) request_id (new_request user_id order_id reason)
                      db.refund_requests other)
                    (h k)
            ])
    ]

-- A request succeeds only for the customer's own delivered order, within seven days of its delivery (of its last update, where no delivery time is recorded), and where there is none for the order yet.
pub request_accepted :
    (now request_id user_id order_id : ℕ) (reason : Option Text) (db db' : Db) (r : RefundRequest)
    → request now request_id user_id order_id reason db ≡ ok (r, db')
    → (o : Order) × (find order_id db.orders ≡ some o)
      × (o.user_id ≡ user_id)
      × (o.status ≡ delivered)
      × (now ≤ deadline o)
      × (find_where (is_request_of order_id) db.refund_requests ≡ none)
      × (db'.refund_requests ≡ insert request_id r db.refund_requests)
unfolding request create_request
request_accepted now request_id user_id order_id reason db db' r e =
    elim (Option-cases (find order_id db.orders)) [
      | inl f ↦ absurd (ground arith)
      | inr (o, f) ↦ elim (Option-cases (find_where (is_request_of order_id) db.refund_requests)) [
        | inr (row, g) ↦ absurd (ground arith)
        | inl g ↦ (o, f, ground arith, ground arith, ground arith, g, ground arith)
      ]
    ]

-- An approval that succeeds has found the request pending, had its refund executed, and left it approved.
approve_write-eq-ok :
    (execute_refund : ℕ → Result ⊤) (now admin_user_id id : ℕ) (existing r : RefundRequest)
    (db : Db)
    → (approve_write execute_refund now admin_user_id id existing db).reply ≡ ok r
    → let a = approve_write execute_refund now admin_user_id id existing db in
      (r.status ≡ approved)
      × (a.executed ≡ existing.order_id ∷ [])
      × (find id a.db.refund_requests ≡ some r)
unfolding approve_write approve_marked
approve_write-eq-ok execute_refund now admin_user_id id existing r db e =
    elim (Option-cases (find id db.refund_requests)) [
      | inl f ↦ absurd (ground arith)
      | inr (x, f) ↦ elim (Bool-cases (is_pending x.status)) [
        | inr g ↦ absurd (ground arith)
        | inl g ↦ elim (Result-cases (execute_refund existing.order_id)) [
          | inr (why, h) ↦ absurd (ground arith)
          | inl (u, h) ↦
              let marked =
                find-modify_self id (review approved admin_user_id now) db.refund_requests x f in
              (ground (arith, marked), ground (arith, marked), ground (arith, marked))
        ]
      ]
    ]

not_pending :
    (execute_refund : ℕ → Result ⊤) (now admin_user_id id : ℕ) (existing r : RefundRequest)
    (db : Db)
    → find id db.refund_requests ≡ some r
    → r.status ≡ approved
    → approve_write execute_refund now admin_user_id id existing db
      ≡ approval_error (conflict already_processed) db
unfolding approve_write
not_pending execute_refund now admin_user_id id existing r db e h = ground arith

-- Of two administrators who have both read a request as pending, only one has the refund executed: once an approval has succeeded, another that goes on from whatever it read before gets the conflict, executes nothing and writes nothing.
pub approve_write-once :
    (execute_refund execute_again : ℕ → Result ⊤) (now later admin_user_id other id : ℕ)
    (existing stale r : RefundRequest) (db : Db)
    → (approve_write execute_refund now admin_user_id id existing db).reply ≡ ok r
    → let a = approve_write execute_refund now admin_user_id id existing db in
      (a.executed ≡ existing.order_id ∷ [])
      × (approve_write execute_again later other id stale a.db
          ≡ approval_error (conflict already_processed) a.db)
approve_write-once execute_refund execute_again now later admin_user_id other id existing stale r db
      e =
    let (status, executed, found) =
      approve_write-eq-ok execute_refund now admin_user_id id existing r db e in
    (executed, not_pending execute_again later other id stale r _ found status)

-- A rejection whose check was made before an approval succeeded still goes through after it: the refund has been executed, and the request is left rejected.
pub reject_write-after_approval :
    (execute_refund : ℕ → Result ⊤) (now later admin_user_id other id : ℕ)
    (existing r : RefundRequest) (db : Db)
    → (approve_write execute_refund now admin_user_id id existing db).reply ≡ ok r
    → let a = approve_write execute_refund now admin_user_id id existing db in
      (a.executed ≡ existing.order_id ∷ [])
      × (find id (after (reject_write later other id a.db) a.db).refund_requests
          ≡ some (review rejected other later r))
unfolding reject_write
reject_write-after_approval execute_refund now later admin_user_id other id existing r db e =
    let (status, executed, found) =
      approve_write-eq-ok execute_refund now admin_user_id id existing r db e in
    let a = approve_write execute_refund now admin_user_id id existing db in
    (
      executed,
      rw (found, reject_write)
          (find-modify_self id (review rejected other later) a.db.refund_requests r found),
    )

-- ===== src/Refunds.antt =====
-- `refundRequestService` (apps/api/src/modules/orders/orders.refund-request.service.ts). `approve` and
-- `reject` are cut in two where they have read the request: `…_write` is the rest. The seven days
-- are of 24 hours each, as they are where the clocks do not change.
pub mod Once
pub mod Tests
use kartit.Prelude.{
  ℕ, ◌+◌, ◌*◌, Bool, true, false, Option, none, some, List, [], ◌∷◌, ◌==◌, if◌then◌else◌, not, ltb,
}
use kartit.Prelude.Table.{Table, find, modify, insert, find_where}
use kartit.Result.{
  Result, ok, err, Error, record_not_found, not_found, not_found_code, forbidden, conflict,
  internal, invalid_status, refund_window_expired, duplicate_request, already_processed,
  stripe_refund_failed,
}
use kartit.Shared.Text.{Text}
use kartit.Shared.Enums.{delivered, refund_window_days}
use kartit.Shared.Transitions.{status_eq}
use kartit.Store.{
  Db, Tx, Order, RefundRequest, RequestStatus, request_pending, approved, rejected, ⊤,
}

-- `order.deliveredAt ?? order.updatedAt`, and the window's length.
abbrev pub deadline : Order → ℕ
deadline order =
    (elim order.delivered_at [ none ↦ order.updated_at | some t ↦ t ])
    + refund_window_days * 86400000

abbrev pub is_request_of : ℕ → RefundRequest → Bool
is_request_of order_id r = r.order_id == order_id

abbrev pub new_request : ℕ → ℕ → Option Text → RefundRequest
new_request user_id order_id reason = record {
  order_id = order_id;
  user_id = user_id;
  status = request_pending;
  reason = reason;
  reviewed_by = none;
  reviewed_at = none;
}

-- `refundRequest.create`, whose order is unique among the requests.
unfoldable pub create_request : ℕ → ℕ → ℕ → Option Text → Tx RefundRequest
create_request request_id user_id order_id reason db =
    elim (find_where (is_request_of order_id) db.refund_requests) [
      | some _ ↦ err (conflict duplicate_request)
      | none ↦
          let row = new_request user_id order_id reason in
          ok (row, record db { refund_requests = insert request_id row db.refund_requests })
    ]

unfoldable pub request : ℕ → ℕ → ℕ → ℕ → Option Text → Tx RefundRequest
request now request_id user_id order_id reason db = elim (find order_id db.orders) [
  | none ↦ err (not_found not_found_code)
  | some order ↦
      if not (order.user_id == user_id)
      then err forbidden
      else if not (status_eq order.status delivered)
      then err (conflict invalid_status)
      else if ltb (deadline order) now
      then err (conflict refund_window_expired)
      else create_request request_id user_id order_id reason db
]

abbrev pub is_pending : RequestStatus → Bool
is_pending request_pending = true
is_pending _ = false

abbrev pub review : RequestStatus → ℕ → ℕ → RefundRequest → RefundRequest
review s admin_user_id now r = record r {
  status = s;
  reviewed_by = some admin_user_id;
  reviewed_at = some now;
}

abbrev pub set_request : ℕ → (RefundRequest → RefundRequest) → Db → Db
set_request id f db = record db { refund_requests = modify id f db.refund_requests }

-- What `approve` leaves: its reply, the database, and the orders for which `executeRefund` was called.
pub record Approval : Type 0 where
  pub reply : Result RefundRequest
  pub db : Db
  pub executed : List ℕ

abbrev pub approval_error : Error → Db → Approval
approval_error e db = record { reply = err e; db = db; executed = [] }

abbrev pub reread_request : ℕ → Db → Result RefundRequest
reread_request id db = elim (find id db.refund_requests) [
  | none ↦ err record_not_found
  | some r ↦ ok r
]

abbrev pub set_pending : RefundRequest → RefundRequest
set_pending r = record r { status = request_pending }

-- Once the request is marked; `execute_refund` tells how the refund of an order goes.
unfoldable pub approve_marked : (ℕ → Result ⊤) → ℕ → ℕ → Db → Approval
approve_marked execute_refund id order_id db = elim (execute_refund order_id) [
  | ok _ ↦ record { reply = reread_request id db; db = db; executed = order_id ∷ [] }
  | err _ ↦ record {
    reply = err (internal stripe_refund_failed);
    db = set_request id set_pending db;
    executed = order_id ∷ [];
  }
]

-- The `updateMany` that asks for PENDING, and what follows it.
unfoldable pub approve_write : (ℕ → Result ⊤) → ℕ → ℕ → ℕ → RefundRequest → Db → Approval
approve_write execute_refund now admin_user_id id existing db = elim (find id db.refund_requests) [
  | none ↦ approval_error (conflict already_processed) db
  | some r ↦
      if is_pending r.status
      then approve_marked execute_refund id existing.order_id
          (set_request id (review approved admin_user_id now) db)
      else approval_error (conflict already_processed) db
]

unfoldable pub approve : (ℕ → Result ⊤) → ℕ → ℕ → ℕ → Db → Approval
approve execute_refund now admin_user_id id db = elim (find id db.refund_requests) [
  | none ↦ approval_error (not_found not_found_code) db
  | some existing ↦
      if is_pending existing.status
      then approve_write execute_refund now admin_user_id id existing db
      else approval_error (conflict already_processed) db
]

-- The `update` of `reject`, which asks for no status.
unfoldable pub reject_write : ℕ → ℕ → ℕ → Tx RefundRequest
reject_write now admin_user_id id db = elim (find id db.refund_requests) [
  | none ↦ err record_not_found
  | some r ↦
      ok
        (review rejected admin_user_id now r, set_request id (review rejected admin_user_id now) db)
]

unfoldable pub reject : ℕ → ℕ → ℕ → Tx RefundRequest
reject now admin_user_id id db = elim (find id db.refund_requests) [
  | none ↦ err (not_found not_found_code)
  | some existing ↦
      if is_pending existing.status
      then reject_write now admin_user_id id db
      else err (conflict already_processed)
]

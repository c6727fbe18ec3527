-- ===== src/Listings.antt =====
-- The listings that give their rows in pages: ordersService.list and getById
-- (apps/api/src/modules/orders/orders.service.ts), `list` and getByOrderId of orders.refund-request.service.ts,
-- and `list` and getById of apps/api/src/modules/promotions/promotions.service.ts. A page holds the rows
-- themselves: what the answer leaves out of a row, and the texts of its numbers and dates, are left out. A
-- limit is at least 1, as the schemas of the queries ask. A table is in the order of creation.
pub mod Walk
pub mod Tests
use kartit.Prelude.{
  ℕ, suc, ◌+◌, Bool, true, false, not, ◌&&◌, ◌||◌, Option, none, some, List, [], ◌∷◌, ◌++◌, length,
  take, ltb, leb, ◌==◌, if◌then◌else◌,
}
use kartit.Prelude.Table.{Table, find, find_where}
use kartit.Result.{
  Result, ok, err, or_throw, ◌>>=◌, not_found, not_found_code, promotion_not_found, forbidden,
  throw_if, ◌>>◌,
}
use kartit.Store.{
  Db, Order, Promotion, RefundRequest, RequestStatus, request_pending, approved, rejected,
}
use kartit.Refunds.{is_request_of}

pub record Page {ℓ} (V : Type ℓ) : Type ℓ where
  pub items : Table V
  pub next_cursor : Option ℕ

module _ {ℓ} {V : Type ℓ} where
  unfoldable pub select : (V → Bool) → Table V → Table V
  select p [] = []
  select p ((id, v) ∷ rows) = let rest = select p rows in if p v then (id, v) ∷ rest else rest

  unfoldable pub newest_first : Table V → Table V
  newest_first [] = []
  newest_first (row ∷ rows) = newest_first rows ++ (row ∷ [])

  -- The rows behind the one with an id.
  unfoldable pub behind : ℕ → Table V → Table V
  behind cursor [] = []
  behind cursor ((id, v) ∷ rows) =
      let rest = behind cursor rows in if cursor == id then rows else rest

  -- `cursor` and `skip: 1`: the rows behind the cursor's. What the database client answers for a cursor that is
  -- not among the rows is `stray`.
  abbrev pub from_cursor : (ℕ → Table V) → Option ℕ → Table V → Table V
  from_cursor stray none rows = rows
  from_cursor stray (some cursor) rows = elim (find cursor rows) [
    | none ↦ stray cursor
    | some _ ↦ behind cursor rows
  ]

  unfoldable pub last_id : Table V → Option ℕ
  last_id [] = none
  last_id ((id, v) ∷ []) = some id
  last_id ((id, v) ∷ row ∷ rows) = last_id (row ∷ rows)

  -- One row more than the page shows is read, which tells whether another page follows.
  unfoldable pub page : (ℕ → Table V) → Option ℕ → ℕ → Table V → Page V
  page stray cursor limit rows =
      let found = take (suc limit) (from_cursor stray cursor rows) in
      let has_next = ltb limit (length found) in
      let items = if has_next then take limit found else found in
      record { items = items; next_cursor = if has_next then last_id items else none }

unfoldable pub visible_orders : ℕ → Bool → Db → Table Order
visible_orders user_id is_admin db =
    newest_first (select (λ o. is_admin || (o.user_id == user_id)) db.orders)

-- `ordersService.list`
abbrev pub list_orders : (ℕ → Table Order) → ℕ → Bool → Option ℕ → ℕ → Db → Page Order
list_orders stray user_id is_admin cursor limit db =
    page stray cursor limit (visible_orders user_id is_admin db)

-- `ordersService.getById`
unfoldable pub get_order : ℕ → Bool → ℕ → Db → Result Order
get_order user_id is_admin id db =
    or_throw (find id db.orders) (not_found not_found_code) >>= λ order.
    throw_if (not is_admin && not (order.user_id == user_id)) forbidden >> ok order

abbrev pub request_status_eq : RequestStatus → RequestStatus → Bool
request_status_eq request_pending request_pending = true
request_status_eq approved approved = true
request_status_eq rejected rejected = true
request_status_eq _ _ = false

abbrev pub has_status : Option RequestStatus → RefundRequest → Bool
has_status none r = true
has_status (some status) r = request_status_eq r.status status

-- `refundRequestService.list`, the oldest first.
abbrev pub list_refund_requests :
    (ℕ → Table RefundRequest) → Option RequestStatus → Option ℕ → ℕ → Db → Page RefundRequest
list_refund_requests stray status cursor limit db =
    page stray cursor limit (select (has_status status) db.refund_requests)

-- `refundRequestService.getByOrderId`
unfoldable pub get_refund_request : ℕ → Bool → ℕ → Db → Result (Option (ℕ × RefundRequest))
get_refund_request user_id is_admin order_id db = elim (find order_id db.orders) [
  | none ↦ ok none
  | some order ↦
      throw_if (not is_admin && not (order.user_id == user_id)) forbidden
      >> ok (find_where (is_request_of order_id) db.refund_requests)
]

-- `promotionsService.list`
abbrev pub list_promotions : (ℕ → Table Promotion) → Option ℕ → ℕ → Db → Page Promotion
list_promotions stray cursor limit db = page stray cursor limit (newest_first db.promotions)

-- `promotionsService.getById`
unfoldable pub get_promotion : ℕ → Db → Result Promotion
get_promotion id db = or_throw (find id db.promotions) (not_found promotion_not_found)

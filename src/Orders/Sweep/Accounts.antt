-- ===== src/Orders/Sweep/Accounts.antt =====
-- The sweep keeps the stock accounts (apps/api/src/jobs/sweepAbandonedOrders.ts).
use kartit.Prelude.{
  ℕ, ◌≡◌, refl, false, Option, none, some, List, [], ◌∷◌, arith, Bool-cases, Option-cases, inl, inr,
  ◌⊎◌, All, ==_refl,
}
use kartit.Prelude.Table.{Table, find, modify, find-modify, IsDistinct}
use kartit.Result.{ok, Result-cases}
use kartit.Shared.Enums.{pending, cancelled}
use kartit.Shared.Transitions.{status_eq, status_eq_sound}
use kartit.Inventory.{restore_inventory}
use kartit.Store.{Db, Order, Payment, after, update_row, ⊤}
use kartit.Orders.{set_status}
use kartit.Orders.Sweep.{
  sweep_write, sweep_order, sweep_loop, sweep_abandoned_orders, find_abandoned, is_abandoned,
}
use kartit.Orders.Accounting.{Keeps, Keeps-refl, Keeps-same, Keeps-trans, Keeps-release}

sweep_write-eq-ok :
    (now id : ℕ) (order : Order) (payment : Option (ℕ × Payment)) (db : Db) (r : ⊤ × Db)
    → sweep_write now id order payment db ≡ ok r
    → (restore_inventory db.products order.items false ≡ ok r.1.products)
      × (r.1.orders ≡ modify id (set_status now cancelled) db.orders)
      × (r.1.cart_items ≡ db.cart_items)
unfolding sweep_write update_row
sweep_write-eq-ok now id order none db r e = (ground arith, ground arith, ground arith)
sweep_write-eq-ok now id order (some (k, p)) db r e = (ground arith, ground arith, ground arith)

-- Where the order is pending as the transaction writes, and has the items that were read.
sweep_write-Keeps :
    (now id : ℕ) (order o : Order) (payment : Option (ℕ × Payment)) (db : Db)
    → find id db.orders ≡ some o
    → o.status ≡ pending
    → order.items ≡ o.items
    → Keeps db (after (sweep_write now id order payment db) db)
sweep_write-Keeps now id order o payment db found status items =
    elim (Result-cases (sweep_write now id order payment db)) [
      | inr (why, e) ↦ rw e (Keeps-refl db)
      | inl (r, e) ↦
          let (restored, orders, carts) = sweep_write-eq-ok now id order payment db r e in
          rw e (
            Keeps-same refl (orders, carts)
              (Keeps-release db id o (set_status now cancelled) r.1.products found (λ y. refl)
                (ground arith) (ground arith) refl refl (rw (← items) restored)))
    ]

sweep_order-Keeps :
    (now id : ℕ) (order : Order) (payment : Option (ℕ × Payment)) (db : Db)
    → ((x : Order) → find id db.orders ≡ some x → order.items ≡ x.items)
    → Keeps db (after (sweep_order now id order payment db) db)
unfolding sweep_order
sweep_order-Keeps now id order payment db items = elim (Option-cases (find id db.orders)) [
  | inl e ↦ rw (e, sweep_order) (Keeps-refl db)
  | inr (o, e) ↦ elim (Bool-cases (status_eq o.status pending)) [
    | inr other ↦ rw (e, other, sweep_order) (Keeps-refl db)
    | inl open_order ↦
        rw (e, open_order, sweep_order)
          (sweep_write-Keeps now id order o payment db e
            (status_eq_sound o.status pending open_order) (items o e))
  ]
]

-- What a row of the list says of the database: the order has the items that were read.
abbrev IsFresh : Db → ℕ × Order × Option (ℕ × Payment) → Type 0
IsFresh db (id, o, _) = (x : Order) → find id db.orders ≡ some x → o.items ≡ x.items

-- A sweep of one order rewrites that order's status, or nothing.
sweep_order-orders :
    (now id : ℕ) (order : Order) (payment : Option (ℕ × Payment)) (db : Db)
    → ((after (sweep_order now id order payment db) db).orders ≡ db.orders)
      ⊎ ((after (sweep_order now id order payment db) db).orders
          ≡ modify id (set_status now cancelled) db.orders)
unfolding sweep_order
sweep_order-orders now id order payment db = elim (Option-cases (find id db.orders)) [
  | inl e ↦ inl (rw (e, sweep_order))
  | inr (o, e) ↦ elim (Bool-cases (status_eq o.status pending)) [
    | inr other ↦ inl (rw (e, other, sweep_order))
    | inl open_order ↦ elim (Result-cases (sweep_write now id order payment db)) [
      | inr (why, f) ↦ inl (rw (e, open_order, f, sweep_order))
      | inl (r, f) ↦
          inr (rw (e, open_order, f, sweep_order) (sweep_write-eq-ok now id order payment db r f).1)
    ]
  ]
]

IsFresh-modify :
    (now id : ℕ) (db db' : Db) (row : ℕ × Order × Option (ℕ × Payment))
    → db'.orders ≡ modify id (set_status now cancelled) db.orders
    → IsFresh db row
    → IsFresh db' row
IsFresh-modify now id db db' (j, o, payment) e fresh x h = elim (Option-cases (find j db.orders)) [
  | inl f ↦ ground (arith, find-modify j id (set_status now cancelled) db.orders)
  | inr (y, f) ↦ ground (arith, fresh y f, find-modify j id (set_status now cancelled) db.orders)
]

IsFresh-step :
    (now id : ℕ) (order : Order) (payment : Option (ℕ × Payment)) (db : Db)
    (row : ℕ × Order × Option (ℕ × Payment))
    → IsFresh db row
    → IsFresh (after (sweep_order now id order payment db) db) row
IsFresh-step now id order payment db row fresh = elim (sweep_order-orders now id order payment db) [
  | inl e ↦ λ x. rw e (fresh x)
  | inr e ↦ IsFresh-modify now id db (after (sweep_order now id order payment db) db) row e fresh
]

All-step :
    (now id : ℕ) (order : Order) (payment : Option (ℕ × Payment)) (db : Db)
    (rows : List (ℕ × Order × Option (ℕ × Payment)))
    → All (IsFresh db) rows
    → All (IsFresh (after (sweep_order now id order payment db) db)) rows
All-step now id order payment db [] h = tt
All-step now id order payment db (row ∷ rows) h =
    (IsFresh-step now id order payment db row h.0, All-step now id order payment db rows h.1)

sweep_loop-Keeps :
    (now : ℕ) (rows : List (ℕ × Order × Option (ℕ × Payment))) (processed : ℕ) (db : Db)
    → All (IsFresh db) rows
    → Keeps db (sweep_loop now rows processed db).1
unfolding sweep_loop
sweep_loop-Keeps now [] processed db h = Keeps-refl db
sweep_loop-Keeps now ((id, o, payment) ∷ rows) processed db h =
    Keeps-trans (sweep_order-Keeps now id o payment db h.0)
      (sweep_loop-Keeps now rows _ _ (All-step now id o payment db rows h.1))

-- The rows that the first query returns are those of the table.
abbrev IsRow : Table Order → ℕ × Order × Option (ℕ × Payment) → Type 0
IsRow t (id, o, _) = find id t ≡ some o

IsRow-cons :
    (k : ℕ) (v : Order) (t : Table Order) (rows : List (ℕ × Order × Option (ℕ × Payment)))
    → find k t ≡ none
    → All (IsRow t) rows
    → All (IsRow ((k, v) ∷ t)) rows
unfolding find
IsRow-cons k v t [] n h = tt
IsRow-cons k v t ((id, o, payment) ∷ rows) n h = (ground (arith, h.0), IsRow-cons k v t rows n h.1)

find_abandoned-rows :
    (now : ℕ) (payments : Table Payment) (t : Table Order)
    → IsDistinct t
    → All (IsRow t) (find_abandoned now payments t)
unfolding find_abandoned IsDistinct find
find_abandoned-rows now payments [] d = tt
find_abandoned-rows now payments ((k, v) ∷ t) d =
    let rest =
      IsRow-cons k v t (find_abandoned now payments t) d.0
        (find_abandoned-rows now payments t d.1) in
    elim (Bool-cases (is_abandoned now v)) [
      | inl e ↦ rw e (rw (==_refl k), rest)
      | inr e ↦ rw e rest
    ]

IsFresh-rows :
    (db : Db) (rows : List (ℕ × Order × Option (ℕ × Payment)))
    → All (IsRow db.orders) rows
    → All (IsFresh db) rows
IsFresh-rows db [] h = tt
IsFresh-rows db ((id, o, payment) ∷ rows) h =
    (λ x here. ground (arith, h.0, here), IsFresh-rows db rows h.1)

pub sweep-Keeps :
    (now : ℕ) (db : Db) → IsDistinct db.orders → Keeps db (sweep_abandoned_orders now db).1
unfolding sweep_abandoned_orders
sweep-Keeps now db d =
    sweep_loop-Keeps now _ 0 db
      (IsFresh-rows db _ (find_abandoned-rows now db.payments db.orders d))

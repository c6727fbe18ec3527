-- ===== src/Orders/Cancel/Accounts.antt =====
-- A cancellation keeps the stock accounts (apps/api/src/modules/orders/orders.service.ts).
use kartit.Prelude.{
  ℕ, ◌≡◌, refl, ap, subst, Bool, true, false, Option, none, some, arith, Option-cases, inl, inr,
}
use kartit.Prelude.Table.{find, modify}
use kartit.Result.{Error, ok, Result-cases}
use kartit.Shared.Enums.{OrderStatus, cancelled}
use kartit.Shared.Transitions.{includes}
use kartit.Inventory.{restore_inventory}
use kartit.Store.{Db, Order, Payment, after}
use kartit.Orders.{Ctx, update_many, set_status, find_by_provider_id}
use kartit.Orders.Cancel.{
  cancellable_statuses, cancel_write, cancel_check, cancel_tx, refund_after, settle, cancel,
}
use kartit.Orders.Accounting.{Keeps, Keeps-refl, Keeps-same, Keeps-release, items_of_find}
use kartit.Orders.Progress.{is_held, is_away}

-- A status that can be cancelled is one that holds a reservation.
cancellable_held : (s : OrderStatus) → includes cancellable_statuses s ≡ is_held s
cancellable_held s = ground arith

held_not_away : (s : OrderStatus) → is_held s ≡ true → is_away s ≡ false
held_not_away s h = ground arith

cancel_write-eq-ok :
    (ctx : Ctx) (user_id id : ℕ) (existing : Order) (payment : Option (ℕ × Payment)) (db : Db)
    (r : Order × Option ℕ) (db' : Db)
    → cancel_write ctx user_id id existing payment db ≡ ok (r, db')
    → (o : Order) × (find id db.orders ≡ some o)
      × (is_held o.status ≡ true)
      × (restore_inventory db.products existing.items false ≡ ok db'.products)
      × (db'.orders ≡ modify id (set_status ctx.now cancelled) db.orders)
      × (db'.cart_items ≡ db.cart_items)
unfolding cancel_write update_many
cancel_write-eq-ok ctx user_id id existing payment db r db' e =
    elim (Option-cases (find id db.orders)) [
      | inl h ↦ absurd (ground arith)
      | inr (o, h) ↦ (
        o,
        h,
        ground (arith, cancellable_held o.status),
        ground arith,
        ground arith,
        ground arith,
      )
    ]

-- The cancelling write keeps the accounts whatever row was read before it, so long as that row has the items of the order as it now stands: the status may have changed in between.
pub cancel_write-Keeps :
    (ctx : Ctx) (user_id id : ℕ) (existing o : Order) (payment : Option (ℕ × Payment)) (db : Db)
    → find id db.orders ≡ some o
    → existing.items ≡ o.items
    → Keeps db (after (cancel_write ctx user_id id existing payment db) db)
cancel_write-Keeps ctx user_id id existing o payment db found same =
    elim (Result-cases (cancel_write ctx user_id id existing payment db)) [
      | inr (why, e) ↦ rw e (Keeps-refl db)
      | inl (r, e) ↦
          let (x, here, was_held, restored, orders, carts) =
            cancel_write-eq-ok ctx user_id id existing payment db r.0 r.1 e in
          rw e (
            Keeps-same refl (orders, carts)
              (Keeps-release db id x (set_status ctx.now cancelled) r.1.products here (λ y. refl)
                was_held (held_not_away x.status was_held) refl refl
                (rw (← items_of_find id db.orders existing.items o x found here same) restored)))
    ]

cancel_check-eq-ok :
    (user_id : ℕ) (is_admin : Bool) (o x : Order)
    → cancel_check user_id is_admin (some o) ≡ ok x
    → x ≡ o
unfolding cancel_check
cancel_check-eq-ok user_id is_admin o x e = ground arith

cancel_tx-Keeps :
    (ctx : Ctx) (user_id : ℕ) (is_admin : Bool) (id : ℕ) (db : Db)
    → Keeps db (after (cancel_tx ctx user_id is_admin id db) db)
unfolding cancel_tx cancel_check
cancel_tx-Keeps ctx user_id is_admin id db = elim (Option-cases (find id db.orders)) [
  | inl e ↦ rw (e, cancel_tx) (Keeps-refl db)
  | inr (o, e) ↦ elim (Result-cases (cancel_check user_id is_admin (some o))) [
    | inr (why, c) ↦ rw (e, c, cancel_tx) (Keeps-refl db)
    | inl (x, c) ↦
        rw (e, c, cancel_tx)
          (cancel_write-Keeps ctx user_id id x o _ db e
            (ap (λ (y : Order). y.items) (cancel_check-eq-ok user_id is_admin o x c)))
  ]
]

-- The refund that follows the transaction touches only payments.
settle-Keeps :
    (r : Order × Option ℕ) (stripe_error : Option Error) (db db' : Db)
    → Keeps db db'
    → Keeps db (settle r stripe_error db').db
unfolding refund_after
settle-Keeps (o, none) stripe_error db db' k = k
settle-Keeps (o, some pi) (some why) db db' k = k
settle-Keeps (o, some pi) none db db' k =
    elim (Option-cases (find_by_provider_id pi db'.payments)) [
      | inl e ↦ rw (e, refund_after) k
      | inr (row, e) ↦ rw (e, refund_after) (Keeps-same refl (refl, refl) k)
    ]

pub cancel-Keeps :
    (ctx : Ctx) (user_id : ℕ) (is_admin : Bool) (id : ℕ) (stripe_error : Option Error) (db : Db)
    → Keeps db (cancel ctx user_id is_admin id stripe_error db).db
unfolding cancel
cancel-Keeps ctx user_id is_admin id stripe_error db =
    elim (Result-cases (cancel_tx ctx user_id is_admin id db)) [
      | inr (why, e) ↦ rw (e, cancel) (Keeps-refl db)
      | inl (r, e) ↦
          rw (e, cancel)
            (settle-Keeps r.0 stripe_error db r.1
              (subst (λ q. Keeps db (after q db)) e (cancel_tx-Keeps ctx user_id is_admin id db)))
    ]

-- ===== src/Orders/Status/Accounts.antt =====
-- The admin's transitions keep the stock accounts
-- (apps/api/src/modules/orders/orders.status.service.ts).
use kartit.Prelude.{
  ℕ, ◌≡◌, refl, true, false, some, arith, Bool-cases, Option-cases, inl, inr, ◌⊎◌, ◌&&◌,
}
use kartit.Prelude.Table.{Table, find, modify}
use kartit.Result.{ok, Result-cases}
use kartit.Shared.Enums.{OrderStatus, pending, shipped, stock_held, stock_release}
use kartit.Shared.Transitions.{status_eq, status_eq_sound, includes, valid_status_transitions}
use kartit.Store.{Db, Order, Product, after}
use kartit.Orders.{Ctx, update_many, was_shipped}
use kartit.Orders.Status.{
  status_data, ship_if, release_if, update_status_write, update_status_from, admin_update_status,
}
use kartit.Orders.Accounting.{
  Keeps, Keeps-refl, Keeps-same, Keeps-release, Keeps-ship, Keeps-relabel, items_of_find,
}
use kartit.Orders.Progress.{is_held, is_away}

update_status_write-eq-ok :
    (ctx : Ctx) (id : ℕ) (next : OrderStatus) (existing r : Order) (db db' : Db)
    → update_status_write ctx id next existing db ≡ ok (r, db')
    → (o : Order) × (t : Table Product) × (find id db.orders ≡ some o)
      × (status_eq existing.status o.status ≡ true)
      × (ship_if (status_eq next shipped) existing.items db.products ≡ ok t)
      × (release_if
            (stock_held existing.status && stock_release next)
            existing.items
            (was_shipped existing.status)
            t
          ≡ ok db'.products)
      × (db'.orders ≡ modify id (status_data ctx next existing) db.orders)
      × (db'.cart_items ≡ db.cart_items)
unfolding update_status_write update_many
update_status_write-eq-ok ctx id next existing r db db' e =
    elim (Option-cases (find id db.orders)) [
      | inl h ↦ absurd (ground arith)
      | inr (o, h) ↦
          elim (Result-cases (ship_if (status_eq next shipped) existing.items db.products)) [
            | inl (t, f) ↦ (o, t, h, ground arith, f, ground arith, ground arith, ground arith)
            | inr (why, f) ↦ absurd (ground arith)
          ]
    ]

-- What an allowed transition does to the accounts: it ships a held order, releases one, or does nothing.
transition_kind :
    (s next : OrderStatus)
    → includes (valid_status_transitions s) next ≡ true
    → ((status_eq next shipped ≡ true)
        × ((stock_held s && stock_release next) ≡ false)
        × (is_held s ≡ true)
        × (is_away s ≡ false)
        × (is_held next ≡ false)
        × (is_away next ≡ true))
      ⊎ (((status_eq next shipped ≡ false)
            × ((stock_held s && stock_release next) ≡ true)
            × (was_shipped s ≡ false)
            × (is_held s ≡ true)
            × (is_away s ≡ false)
            × (is_held next ≡ false)
            × (is_away next ≡ false))
          ⊎ ((status_eq next shipped ≡ false)
              × ((stock_held s && stock_release next) ≡ false)
              × (is_held next ≡ is_held s)
              × (is_away next ≡ is_away s)
              × (status_eq next pending ≡ false)))
unfolding valid_status_transitions
transition_kind s next h = ground arith

update_status_moves :
    (ctx : Ctx) (id : ℕ) (next : OrderStatus) (existing o : Order) (t t' : Table Product) (db : Db)
    → includes (valid_status_transitions existing.status) next ≡ true
    → find id db.orders ≡ some o
    → existing.items ≡ o.items
    → existing.status ≡ o.status
    → ship_if (status_eq next shipped) existing.items db.products ≡ ok t
    → release_if
        (stock_held existing.status && stock_release next)
        existing.items
        (was_shipped existing.status)
        t
      ≡ ok t'
    → Keeps db
        (record db { products = t'; orders = modify id (status_data ctx next existing) db.orders })
update_status_moves ctx id next existing o t t' db allowed found items status ship release =
    let f = status_data ctx next existing in
    elim (transition_kind existing.status next allowed) [
      | inl (a, b, c, d, g, h) ↦
          Keeps-ship db id o f t' found (λ x. refl) (rw (← status) c) (rw (← status) d) g h
            (ground arith)
      | inr (inl (a, b, w, c, d, g, h)) ↦
          Keeps-release db id o f t' found (λ x. refl) (rw (← status) c) (rw (← status) d) g h
            (ground arith)
      | inr (inr (a, b, c, d, e)) ↦
          Keeps-relabel db id o f t' found (λ x. refl) (rw (← status) c) (rw (← status) d)
            (ground arith) e
    ]

-- Whatever row was read, if its transition is allowed and it has the items of the order as it now stands, the write keeps the accounts: it goes through only at the status that was read.
pub update_status_write-Keeps :
    (ctx : Ctx) (id : ℕ) (next : OrderStatus) (existing o : Order) (db : Db)
    → includes (valid_status_transitions existing.status) next ≡ true
    → find id db.orders ≡ some o
    → existing.items ≡ o.items
    → Keeps db (after (update_status_write ctx id next existing db) db)
update_status_write-Keeps ctx id next existing o db allowed found same =
    elim (Result-cases (update_status_write ctx id next existing db)) [
      | inr (why, e) ↦ rw e (Keeps-refl db)
      | inl (r, e) ↦
          let (x, t, here, status, ship, release, orders, carts) =
            update_status_write-eq-ok ctx id next existing r.0 db r.1 e in
          rw e (
            Keeps-same refl (orders, carts)
              (update_status_moves ctx id next existing x t r.1.products db allowed here
                (items_of_find id db.orders existing.items o x found here same)
                (status_eq_sound existing.status x.status status) ship release))
    ]

update_status_from-Keeps :
    (ctx : Ctx) (id : ℕ) (next : OrderStatus) (o : Order) (db : Db)
    → find id db.orders ≡ some o
    → Keeps db (after (update_status_from ctx id next o db) db)
unfolding update_status_from
update_status_from-Keeps ctx id next o db found = elim (Bool-cases (status_eq o.status next)) [
  | inl same ↦ rw same (Keeps-refl db)
  | inr differ ↦ elim (Bool-cases (includes (valid_status_transitions o.status) next)) [
    | inl allowed ↦
        rw (differ, allowed) (update_status_write-Keeps ctx id next o o db allowed found refl)
    | inr refused ↦ rw (differ, refused) (Keeps-refl db)
  ]
]

pub admin_update_status-Keeps :
    (ctx : Ctx) (id : ℕ) (next : OrderStatus) (db : Db)
    → Keeps db (after (admin_update_status ctx id next db) db)
unfolding admin_update_status
admin_update_status-Keeps ctx id next db = elim (Option-cases (find id db.orders)) [
  | inl e ↦ rw (e, admin_update_status) (Keeps-refl db)
  | inr (o, e) ↦ rw (e, admin_update_status) (update_status_from-Keeps ctx id next o db e)
]

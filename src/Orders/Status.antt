-- ===== src/Orders/Status.antt =====
-- `ordersStatusService.adminUpdateStatus` (apps/api/src/modules/orders/orders.status.service.ts).
pub mod Accounts
use kartit.Prelude.{
  ℕ, Bool, true, false, Option, none, some, List, [], ◌∷◌, ◌==◌, if◌then◌else◌, ◌&&◌, not,
}
use kartit.Prelude.Table.{Table, find}
use kartit.Result.{
  Result, ok, err, record_not_found, not_found, not_found_code, conflict, order_invalid_state,
  throw_if, or_throw,
}
use kartit.Shared.Enums.{OrderStatus, paid, shipped, delivered, stock_held, stock_release}
use kartit.Shared.Transitions.{status_eq, includes, valid_status_transitions}
use kartit.Inventory.{restore_inventory, ship_inventory}
use kartit.Store.{Db, Tx, Product, Order, OrderItem, pure, gets, lift, ◌>>=◌, ◌>>◌}
use kartit.Orders.{Ctx, update_many, on_products, was_shipped, is_some}

-- The `data` of the conditional update, from the row that was read.
abbrev pub status_data : Ctx → OrderStatus → Order → Order → Order
status_data ctx next existing o = record o {
  status = next;
  paid_at =
      if status_eq next paid && not (is_some existing.paid_at) then some ctx.now else o.paid_at;
  delivered_at =
      if status_eq next delivered && not (is_some existing.delivered_at)
      then some ctx.now
      else o.delivered_at;
  updated_at = ctx.now;
}

-- `if (next === SHIPPED)`: the items leave the warehouse.
abbrev pub ship_if : Bool → List OrderItem → Table Product → Result (Table Product)
ship_if true items t = ship_inventory t items
ship_if false items t = ok t

-- `if (STOCK_HELD.has(current) && STOCK_RELEASE.has(next))`
abbrev pub release_if : Bool → List OrderItem → Bool → Table Product → Result (Table Product)
release_if true items shipped_before t = restore_inventory t items shipped_before
release_if false items shipped_before t = ok t

unfoldable pub update_status_write : Ctx → ℕ → OrderStatus → Order → Tx Order
update_status_write ctx id next existing = do
  count ← update_many id (status_eq existing.status) (status_data ctx next existing)
  lift (throw_if (not (count == 1)) (conflict order_invalid_state))
  on_products (ship_if (status_eq next shipped) existing.items)
  on_products (
      release_if (stock_held existing.status && stock_release next) existing.items
        (was_shipped existing.status))
  updated ← gets (λ db. find id db.orders)
  lift (or_throw updated record_not_found)

unfoldable pub update_status_from : Ctx → ℕ → OrderStatus → Order → Tx Order
update_status_from ctx id next existing =
    if status_eq existing.status next
    then pure existing
    else if includes (valid_status_transitions existing.status) next
    then update_status_write ctx id next existing
    else λ db. err (conflict order_invalid_state)

unfoldable pub admin_update_status : Ctx → ℕ → OrderStatus → Tx Order
admin_update_status ctx id next = do
  found ← gets (λ db. find id db.orders)
  existing ← lift (or_throw found (not_found not_found_code))
  update_status_from ctx id next existing

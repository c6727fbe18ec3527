-- ===== src/Run/Accounts.antt =====
-- The stock accounts over every sequence of calls of the order services.
use kartit.Prelude.{ℕ, ◌≡◌, refl, ◌∙◌, Bool}
use kartit.Prelude.Int.{◌+ℤ◌}
use kartit.Prelude.Table.{IsDistinct}
use kartit.Shared.Text.{Text}
use kartit.Inventory.Effects.{physical, IsStocked}
use kartit.Store.{Db}
use kartit.Cart.Bounds.{
  IsSaneCart, Shops, add_item-Shops, update_item-Shops, remove_item-Shops, clear-Shops,
}
use kartit.Orders.Accounting.{IsBalanced, IsSane, Keeps, away}
use kartit.Orders.Progress.{TableProgress, TableProgress-refl, TableProgress-trans}
use kartit.Orders.Create.Accounts.{create-Keeps}
use kartit.Orders.Cancel.Accounts.{cancel-Keeps}
use kartit.Orders.Status.Accounts.{admin_update_status-Keeps}
use kartit.Orders.Webhook.Accounts.{mark_paid-Keeps, mark_failed-Keeps, mark_refunded-Keeps}
use kartit.Orders.Sweep.Accounts.{sweep-Keeps}
use kartit.Run.{
  Call, add_call, update_call, remove_call, clear_call, create_call, cancel_call, status_call,
  paid_call, refunded_call, failed_call, sweep_call, step, IsFresh, Runs, done, call,
}

-- The books are right: the reserved column is what open orders hold, no product is oversold, order ids
-- are distinct, and no order or cart names a quantity below 0.
pub record IsSound (db : Db) : Type 0 where
  pub balanced : IsBalanced db
  pub stocked : IsStocked db.products
  pub distinct : IsDistinct db.orders
  pub sane : IsSane db.orders
  pub carts : IsSaneCart db.cart_items

-- The units of each product in the warehouse and out with customers together.
abbrev pub IsConserved : Db → Db → Type 0
IsConserved db db' =
    (p : ℕ) → physical p db'.products +ℤ away p db' ≡ physical p db.products +ℤ away p db

-- The books stay right, and the orders go on.
abbrev Stays : Db → Db → Type 0
Stays db db' = IsSound db' × IsConserved db db' × TableProgress db.orders db'.orders

Keeps-Stays : {db db' : Db} → Keeps db db' → IsSound db → Stays db db'
Keeps-Stays k s = (
  record {
    balanced = k.balance s.balanced;
    stocked = k.stocked s.sane s.stocked;
    distinct = k.distinct s.distinct;
    sane = k.sane s.sane;
    carts = k.carts s.carts;
  },
  k.conserved,
  k.progress,
)

Shops-Stays : {db db' : Db} → Shops db db' → IsSound db → Stays db db'
Shops-Stays {db} h s = (
  record {
    balanced = λ p. rw (h.products, h.orders) (s.balanced p);
    stocked = rw h.products s.stocked;
    distinct = rw h.orders s.distinct;
    sane = rw h.orders s.sane;
    carts = h.carts s.stocked s.carts;
  },
  λ p. rw (h.products, h.orders) refl,
  rw h.orders (TableProgress-refl db.orders),
)

module _ (before : ℕ → ℕ → Bool) (stripe_currency : Text) where
  step-Stays :
      (c : Call) (db : Db)
      → IsFresh before stripe_currency c db
      → IsSound db
      → Stays db (step before stripe_currency c db)
  unfolding step
  step-Stays (add_call ids user_id product_id q) db f s =
      Shops-Stays (add_item-Shops ids user_id product_id q db) s
  step-Stays (update_call ids user_id product_id q) db f s =
      Shops-Stays (update_item-Shops ids user_id product_id q db) s
  step-Stays (remove_call ids user_id product_id) db f s =
      Shops-Stays (remove_item-Shops ids user_id product_id db) s
  step-Stays (clear_call ids user_id) db f s = Shops-Stays (clear-Shops ids user_id db) s
  step-Stays (create_call cached ids user_id input) db f s =
      Keeps-Stays (create-Keeps before cached stripe_currency ids user_id input db f s.carts) s
  step-Stays (cancel_call ctx user_id is_admin id stripe_error) db f s =
      Keeps-Stays (cancel-Keeps ctx user_id is_admin id stripe_error db) s
  step-Stays (status_call ctx id next) db f s =
      Keeps-Stays (admin_update_status-Keeps ctx id next db) s
  step-Stays (paid_call ctx pi) db f s = Keeps-Stays (mark_paid-Keeps ctx pi db) s
  step-Stays (refunded_call ctx pi) db f s = Keeps-Stays (mark_refunded-Keeps ctx pi db) s
  step-Stays (failed_call ctx pi reason) db f s = Keeps-Stays (mark_failed-Keeps ctx pi reason db) s
  step-Stays (sweep_call now) db f s = Keeps-Stays (sweep-Keeps now db s.distinct) s

  pub Runs-Stays : (db db' : Db) → Runs before stripe_currency db db' → IsSound db → Stays db db'
  Runs-Stays db db' done s = (s, λ p. refl, TableProgress-refl db.orders)
  Runs-Stays db db' (call c fresh rest) s =
      let (s', moved, on) = step-Stays c db fresh s in
      let (s'', moves, further) = Runs-Stays (step before stripe_currency c db) db' rest s' in
      (s'', λ p. moves p ∙ moved p, TableProgress-trans _ _ _ on further)

  -- Where the books are right at the start (order ids are distinct, and no order or cart names a quantity below 0, among it) and each new order's id is new, they stay right whatever calls of the cart and order services run one after another: each product's reserved quantity is the sum over the pending, paid and processing orders, it never exceeds the physical stock, and the physical stock together with what has left in shipped and delivered orders is what it was at the start.
  pub Runs-IsSound :
      (db db' : Db)
      → Runs before stripe_currency db db'
      → IsSound db
      → IsSound db' × IsConserved db db'
  Runs-IsSound db db' runs s = let (s', moved, _) = Runs-Stays db db' runs s in (s', moved)

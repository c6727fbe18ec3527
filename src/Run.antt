-- ===== src/Run.antt =====
-- The order services together: everything that apps/api lets a customer, an administrator, Stripe and
-- the clock do to orders and carts, one call after another. An administrator's edit of a product
-- (apps/api/src/modules/products) is not among the calls.
pub mod Accounts
pub mod Final
pub mod Tests
use kartit.Prelude.{ℕ, ◌≡◌, Bool, Option, none}
use kartit.Prelude.Int.{pos}
use kartit.Prelude.Table.{find}
use kartit.Result.{Error}
use kartit.Shared.Text.{Text}
use kartit.Shared.Enums.{OrderStatus}
use kartit.Store.{Db, Promotion, after}
use kartit.Cart.{CartIds, add_item, update_item, remove_item, clear}
use kartit.Orders.{Ctx}
use kartit.Orders.Create.{Input, NewOrder, create}
use kartit.Orders.Cancel.{cancel}
use kartit.Orders.Status.{admin_update_status}
use kartit.Orders.Webhook.{
  mark_paid_by_payment_intent, mark_failed_by_payment_intent, mark_refunded_by_payment_intent,
}
use kartit.Orders.Sweep.{sweep_abandoned_orders}

pub data Call : Type 0 where
  add_call update_call : CartIds → (user_id product_id quantity : ℕ) → Call
  remove_call : CartIds → (user_id product_id : ℕ) → Call
  clear_call : CartIds → (user_id : ℕ) → Call
  create_call : Option (ℕ × Promotion) → NewOrder → (user_id : ℕ) → Input → Call
  cancel_call : Ctx → (user_id : ℕ) → Bool → (id : ℕ) → Option Error → Call
  status_call : Ctx → (id : ℕ) → OrderStatus → Call
  paid_call refunded_call : Ctx → (pi : ℕ) → Call
  failed_call : Ctx → (pi : ℕ) → Option Text → Call
  sweep_call : (now : ℕ) → Call

module _ (before : ℕ → ℕ → Bool) (stripe_currency : Text) where
  -- What a call leaves of the database, whether it succeeds or not.
  unfoldable pub step : Call → Db → Db
  step (add_call ids user_id product_id q) db = (add_item ids user_id product_id (pos q) db).1
  step (update_call ids user_id product_id q) db = (update_item ids user_id product_id (pos q) db).1
  step (remove_call ids user_id product_id) db = (remove_item ids user_id product_id db).1
  step (clear_call ids user_id) db = (clear ids user_id db).1
  step (create_call cached ids user_id input) db =
      after (create before cached stripe_currency ids user_id input db) db
  step (cancel_call ctx user_id is_admin id stripe_error) db =
      (cancel ctx user_id is_admin id stripe_error db).db
  step (status_call ctx id next) db = after (admin_update_status ctx id next db) db
  step (paid_call ctx pi) db = after (mark_paid_by_payment_intent ctx pi db) db
  step (refunded_call ctx pi) db = after (mark_refunded_by_payment_intent ctx pi db) db
  step (failed_call ctx pi reason) db = after (mark_failed_by_payment_intent ctx pi reason db) db
  step (sweep_call now) db = (sweep_abandoned_orders now db).1

  -- The id that the database client makes for an order is new.
  abbrev pub IsFresh : Call → Db → Type 0
  IsFresh (create_call cached ids user_id input) db = find ids.order_id db.orders ≡ none
  IsFresh _ db = Unit

  -- `Runs db db'`: calls, one after another, lead from `db` to `db'`.
  pub data Runs : Db → Db → Type 0 where
    done : {db : Db} → Runs db db
    call : {db db' : Db} (c : Call) → IsFresh c db → Runs (step c db) db' → Runs db db'

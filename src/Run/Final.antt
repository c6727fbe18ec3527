-- ===== src/Run/Final.antt =====
-- What stays true of an order through every later call (apps/api/src/modules/orders).
use kartit.Prelude.{ℕ, ◌≡◌, refl, sym, subst, true, false, Bool, Option, some, [], arith, inl, inr}
use kartit.Prelude.Table.{find}
use kartit.Result.{Error, ok, err, bad_request, invalid_status, Result-cases}
use kartit.Shared.Text.{Text}
use kartit.Shared.Enums.{OrderStatus, delivered}
use kartit.Shared.Transitions.{status_eq}
use kartit.Store.{Db, Order, Payment, after}
use kartit.Orders.{Ctx, find_by_provider_id, find_last_where, is_valid_payment}
use kartit.Orders.Progress.{is_ended, Progress}
use kartit.Orders.Cancel.{cancel_tx, cancel}
use kartit.Orders.Cancel.Again.{cancel-ended, cancel-cancelled}
use kartit.Orders.Webhook.{mark_paid_by_payment_intent, refund_order, refund_payment}
use kartit.Orders.Webhook.Again.{mark_paid-settled, mark_paid-closed}
use kartit.Run.{Runs, step, cancel_call, paid_call, done, call}
use kartit.Run.Accounts.{IsSound, Runs-Stays}

-- The administrator's refund wants a delivered order.
refund_order-ended :
    (id : ℕ) (db : Db) (o : Order)
    → find id db.orders ≡ some o
    → is_ended o.status ≡ true
    → (why : Error) × (refund_order id db ≡ err why)
unfolding refund_order
refund_order-ended id db o here ended =
    elim (Result-cases (refund_payment (find_last_where (is_valid_payment id) db.payments))) [
      | inr (why, e) ↦ (why, rw (refund_order, here, e) refl)
      | inl ((pi, p), e) ↦
          let early : status_eq o.status delivered ≡ false = not_delivered o.status ended in
          (bad_request invalid_status, rw (refund_order, here, e, early) refl)
    ]
  where
    not_delivered : (s : OrderStatus) → is_ended s ≡ true → status_eq s delivered ≡ false
    not_delivered s h = ground arith

module _ (before : ℕ → ℕ → Bool) (stripe_currency : Text) where
  -- Whatever calls of the cart and order services are made one after another (each new order's id being new, and the books right at the start), no order is lost, one that is cancelled, failed or refunded stays at one of these statuses, and one that is not pending does not become pending again.
  pub Runs-Progress :
      (id : ℕ) (o : Order) (db u : Db)
      → IsSound db
      → Runs before stripe_currency db u
      → find id db.orders ≡ some o
      → (o' : Order) × (find id u.orders ≡ some o') × Progress o.status o'.status
  Runs-Progress id o db u sound runs here =
      let (_, _, onwards) = Runs-Stays before stripe_currency db u runs sound in onwards id o here

  -- Once a cancellation of an order has committed, then after whatever calls of the cart and order services follow, one after another (each new order's id being new, and the books right before the cancellation), a further cancellation, whoever asks for it, is an error that writes nothing and asks Stripe for no refund, also where Stripe refused the first one, and the administrator's refund of the order is an error.
  pub cancel-final :
      (ctx later : Ctx) (user_id other id : ℕ) (is_admin is_other_admin : Bool)
      (stripe_error later_error : Option Error) (db db' u : Db) (r : Order × Option ℕ)
      → IsSound db
      → cancel_tx ctx user_id is_admin id db ≡ ok (r, db')
      → Runs before stripe_currency (cancel ctx user_id is_admin id stripe_error db).db u
      → let again = cancel later other is_other_admin id later_error u in
        (again.refunds ≡ [])
        × (again.db ≡ u)
        × ((why : Error) × (again.reply ≡ err why))
        × ((why : Error) × (refund_order id u ≡ err why))
  unfolding step
  cancel-final ctx later user_id other id is_admin is_other_admin stripe_error later_error db db' u
        r sound e runs =
      let s = (cancel ctx user_id is_admin id stripe_error db).db in
      let (x, here, is_cancelled) =
        cancel-cancelled ctx user_id id is_admin stripe_error db db' r e in
      let (sound', _, _) =
        Runs-Stays before stripe_currency db s
          (call (cancel_call ctx user_id is_admin id stripe_error) tt done) sound in
      let (_, _, onwards) = Runs-Stays before stripe_currency s u runs sound' in
      let (o, there, (stays_ended, _)) = onwards id x here in
      let ended = stays_ended (rw is_cancelled refl) in
      let (none_asked, unchanged, refusal) =
        cancel-ended later other is_other_admin id later_error u o there ended in
      (none_asked, unchanged, refusal, refund_order-ended id u o there ended)

  -- Once Stripe's success event of a known intent has been handled, then whatever calls of the cart and order services follow, one after another (each new order's id being new, and the books right before the event), handling the event again writes nothing, so long as the intent still belongs to the same order.
  pub mark_paid-final :
      (ctx later : Ctx) (pi k j : ℕ) (p q : Payment) (db db' u : Db) (r : Option Order)
      → IsSound db
      → find_by_provider_id pi db.payments ≡ some (k, p)
      → mark_paid_by_payment_intent ctx pi db ≡ ok (r, db')
      → Runs before stripe_currency db' u
      → find_by_provider_id pi u.payments ≡ some (j, q)
      → q.order_id ≡ p.order_id
      → (again : Option Order) × (mark_paid_by_payment_intent later pi u ≡ ok (again, u))
  unfolding step
  mark_paid-final ctx later pi k j p q db db' u r sound known e runs still same =
      let (x, here, closed) = mark_paid-settled ctx pi k p db db' r known e in
      let left : after (mark_paid_by_payment_intent ctx pi db) db ≡ db' = rw e refl in
      let (sound', _, _) =
        Runs-Stays before stripe_currency db db'
          (call (paid_call ctx pi) tt
            (subst (λ v. Runs before stripe_currency v db') (sym left) done))
          sound in
      let (_, _, onwards) = Runs-Stays before stripe_currency db' u runs sound' in
      let (o, there, (_, stays_closed)) = onwards p.order_id x here in
      (some o, mark_paid-closed later pi j q o u still (rw same there) (stays_closed closed))

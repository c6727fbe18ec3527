-- ===== src/Orders/Create/Accounts.antt =====
-- A new order in the stock accounts (apps/api/src/modules/orders/orders.service.ts).
use kartit.Prelude.{
  ℕ, ◌≡◌, sym, subst, ◌∙◌, none≢some, some, Bool, Option, none, List, [], ◌∷◌, arith, map, All,
  Option-cases, inl, inr,
}
use kartit.Prelude.Int.{ℤ, pos, ◌≤ℤ◌, int_laws, parts_of_eq}
use kartit.Prelude.Table.{Table, find, insert, find-insert_ne, sum_by-insert, IsDistinct-insert}
use kartit.Result.{ok, Result-cases, >>=-eq-ok}
use kartit.Shared.Text.{Text}
use kartit.Inventory.{reserve_inventory}
use kartit.Inventory.Effects.{IsNonneg}
use kartit.Inventory.Reserve.{reserve_inventory_sound}
use kartit.Promotions.{ValidatedPromotion}
use kartit.Store.{Db, Product, Order, Address, CartItem, Promotion, after}
use kartit.Cart.{Line, cart_lines, checked_promotion, sum_lines, clear_cart}
use kartit.Cart.Bounds.{IsSaneCart, clear_cart-IsSaneCart}
use kartit.Orders.Create.{
  Draft, Input, NewOrder, check_lines, draft_for, snapshot, prepare, prepare_lines, own_address,
  lock_if, new_order, create_write, create,
}
use kartit.Orders.Accounting.{Keeps, Keeps-refl, IsSane, weight}
use kartit.Orders.Progress.{is_held, is_away, Progress-refl}

IsSane-insert :
    (id : ℕ) (o : Order) (t : Table Order) → IsNonneg o.items → IsSane t → IsSane (insert id o t)
unfolding IsSane
IsSane-insert id o [] n s = (n, tt)
IsSane-insert id o ((k, x) ∷ t) n s = (s.0, IsSane-insert id o t n s.1)

module _ (before : ℕ → ℕ → Bool) where
  create_write-eq-ok :
      (ids : NewOrder) (draft : Draft) (db db' : Db) (r : Order)
      → create_write before ids draft db ≡ ok (r, db')
      → (reserve_inventory before db.products draft.items ≡ ok db'.products)
        × (db'.orders ≡ insert ids.order_id (new_order ids draft) db.orders)
        × (db'.cart_items ≡ clear_cart draft.cart_id db.cart_items)
  unfolding create_write
  create_write-eq-ok ids draft db db' r e =
      elim (Result-cases (lock_if draft.promotion_id draft.user_id db)) [
        | inr (why, f) ↦ absurd (ground arith)
        | inl (u, f) ↦ (ground arith, ground arith, ground arith)
      ]

  -- A transaction that creates an order under a fresh id keeps the accounts: its items join what is held, and its cart is emptied.
  pub create_write-Keeps :
      (ids : NewOrder) (draft : Draft) (db : Db)
      → find ids.order_id db.orders ≡ none
      → IsNonneg draft.items
      → Keeps db (after (create_write before ids draft db) db)
  create_write-Keeps ids draft db fresh nonneg =
      elim (Result-cases (create_write before ids draft db)) [
        | inr (why, e) ↦ rw e (Keeps-refl db)
        | inl (r, e) ↦
            let (reserved, orders, carts) = create_write-eq-ok ids draft db r.1 r.0 e in
            let (moves, stocked) =
              reserve_inventory_sound before draft.items db.products r.1.products reserved in
            let o = new_order ids draft in
            rw e (record {
              balance = λ h p. rw orders (
                  omega (
                    int_laws,
                    parts_of_eq (h p),
                    parts_of_eq (moves p).0,
                    parts_of_eq (sum_by-insert (weight is_held p) ids.order_id o db.orders),
                  ));
              conserved = λ p. rw orders (
                  omega (
                    int_laws,
                    parts_of_eq (moves p).1,
                    parts_of_eq (sum_by-insert (weight is_away p) ids.order_id o db.orders),
                  ));
              distinct = λ d. rw orders (IsDistinct-insert ids.order_id o db.orders fresh d);
              sane = λ s. rw orders (IsSane-insert ids.order_id o db.orders nonneg s);
              stocked = λ s h. stocked h;
              carts = λ h. rw carts (clear_cart-IsSaneCart draft.cart_id db.cart_items h);
              progress = λ id x here. rw orders (
                x,
                find-insert_ne id ids.order_id o db.orders (λ same.
                      none≢some (sym fresh ∙ subst (λ k. find k db.orders ≡ some x) same here))
                    ∙ here,
                Progress-refl x.status,
              );
            })
      ]

abbrev IsSaneLines : List Line → Type 0
IsSaneLines = All (λ line. pos 0 ≤ℤ line.quantity)

cart_lines-IsSaneLines :
    (cart_id : ℕ) (products : Table Product) (t : Table CartItem) (lines : List Line)
    → IsSaneCart t
    → cart_lines cart_id products t ≡ ok lines
    → IsSaneLines lines
unfolding IsSaneCart cart_lines
cart_lines-IsSaneLines cart_id products [] lines s e = ground arith
cart_lines-IsSaneLines cart_id products ((k, item) ∷ t) lines s e =
    elim (Result-cases (cart_lines cart_id products t)) [
      | inl (rest, f) ↦ ground (arith, cart_lines-IsSaneLines cart_id products t rest s.1 f)
      | inr (why, f) ↦ absurd (ground arith)
    ]

snapshot-IsNonneg : (lines : List Line) → IsSaneLines lines → IsNonneg (map snapshot lines)
snapshot-IsNonneg [] s = tt
snapshot-IsNonneg (line ∷ lines) s = (s.0, snapshot-IsNonneg lines s.1)

draft_for-items :
    (stripe_currency : Text) (user_id : ℕ) (a : Address) (cart_id : ℕ) (line : Line)
    (lines : List Line) (subtotal : ℤ) (promo : Option ValidatedPromotion) (draft : Draft)
    → draft_for stripe_currency user_id a cart_id line lines subtotal promo ≡ ok draft
    → draft.items ≡ map snapshot (line ∷ lines)
draft_for-items stripe_currency user_id a cart_id line lines subtotal promo draft e = ground arith

prepare_lines-items :
    (cached : Option (ℕ × Promotion)) (stripe_currency : Text) (now user_id : ℕ)
    (code : Option Text) (a : Address) (cart_id : ℕ) (lines : List Line) (db : Db) (draft : Draft)
    → prepare_lines cached stripe_currency now user_id code a cart_id lines db ≡ ok draft
    → draft.items ≡ map snapshot lines
unfolding prepare_lines
prepare_lines-items cached stripe_currency now user_id code a cart_id [] db draft e =
    absurd (ground arith)
prepare_lines-items cached stripe_currency now user_id code a cart_id (line ∷ lines) db draft e =
    let subtotal = sum_lines (pos 0) (line ∷ lines) in
    let (u, checked, e') = >>=-eq-ok (check_lines db.products (line ∷ lines)) _ e in
    let (promo, valid, e'') =
      >>=-eq-ok (checked_promotion cached now code subtotal user_id db) _ e' in
    draft_for-items stripe_currency user_id a cart_id line lines subtotal promo draft e''

-- The lines that a draft was made of.
pub prepare-lines :
    (cached : Option (ℕ × Promotion)) (stripe_currency : Text) (now user_id : ℕ) (input : Input)
    (db : Db) (draft : Draft)
    → prepare cached stripe_currency now user_id input db ≡ ok draft
    → (a : Address) × (cart_id : ℕ) × (lines : List Line) × (cart_lines cart_id db.products
          db.cart_items
        ≡ ok lines)
      × (prepare_lines cached stripe_currency now user_id input.promotion_code a cart_id lines db
          ≡ ok draft)
unfolding prepare
prepare-lines cached stripe_currency now user_id input db draft e =
    let (a, owned, e') =
      >>=-eq-ok (own_address user_id (find input.shipping_address_id db.addresses)) _ e in
    elim (Option-cases (find user_id db.carts)) [
      | inl f ↦ absurd (ground arith)
      | inr (cart_id, f) ↦
          let (lines, read, e'') =
            >>=-eq-ok (cart_lines cart_id db.products db.cart_items) _ (rw f at e') in
          (a, cart_id, lines, read, e'')
    ]

prepare-IsNonneg :
    (cached : Option (ℕ × Promotion)) (stripe_currency : Text) (now user_id : ℕ) (input : Input)
    (db : Db) (draft : Draft)
    → IsSaneCart db.cart_items
    → prepare cached stripe_currency now user_id input db ≡ ok draft
    → IsNonneg draft.items
prepare-IsNonneg cached stripe_currency now user_id input db draft s e =
    let (a, cart_id, lines, read, e') =
      prepare-lines cached stripe_currency now user_id input db draft e in
    rw
      (prepare_lines-items cached stripe_currency now user_id input.promotion_code a cart_id lines
        db draft e')
      (snapshot-IsNonneg lines
        (cart_lines-IsSaneLines cart_id db.products db.cart_items lines s read))

module _ (before : ℕ → ℕ → Bool) where
  pub create-Keeps :
      (cached : Option (ℕ × Promotion)) (stripe_currency : Text) (ids : NewOrder) (user_id : ℕ)
      (input : Input) (db : Db)
      → find ids.order_id db.orders ≡ none
      → IsSaneCart db.cart_items
      → Keeps db (after (create before cached stripe_currency ids user_id input db) db)
  unfolding create
  create-Keeps cached stripe_currency ids user_id input db fresh s =
      elim (Result-cases (prepare cached stripe_currency ids.now user_id input db)) [
        | inr (why, e) ↦ rw (e, create) (Keeps-refl db)
        | inl (draft, e) ↦
            rw (e, create)
              (create_write-Keeps before ids draft db fresh
                (prepare-IsNonneg cached stripe_currency ids.now user_id input db draft s e))
      ]

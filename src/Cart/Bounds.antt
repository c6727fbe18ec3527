-- ===== src/Cart/Bounds.antt =====
-- The quantities in the carts (apps/api/src/modules/cart/cart.service.ts).
use kartit.Prelude.{
  ℕ, ◌≡◌, ◌∙◌, refl, some, [], ◌∷◌, arith, ◌==◌, Option-cases, Bool-cases, inl, inr,
}
use kartit.Prelude.Int.{ℤ, pos, ◌≤ℤ◌, int_laws, ltb_ℤ, eqb_ℤ}
use kartit.Prelude.Table.{Table, find, modify, insert, erase}
use kartit.Result.{Result-cases}
use kartit.Inventory.{available_stock}
use kartit.Inventory.Effects.{IsStocked}
use kartit.Store.{Db, Product, CartItem}
use kartit.Cart.{
  CartIds, clear_cart, get_or_create_cart, find_item, set_quantity, add_quantity, new_item,
  upsert_item, clamp_item, clamped_reply, clamp_reply, is_available, find_undeleted, add_item,
  check_update, update_in, update_item, remove_from, remove_item, clear, reply_cart, cart_lines,
}

-- A cart that names no quantity below 0.
unfoldable pub IsSaneCart : Table CartItem → Type 0
IsSaneCart [] = Unit
IsSaneCart ((_, item) ∷ t) = (pos 0 ≤ℤ item.quantity) × IsSaneCart t

pub clear_cart-IsSaneCart :
    (cart_id : ℕ) (t : Table CartItem) → IsSaneCart t → IsSaneCart (clear_cart cart_id t)
unfolding IsSaneCart clear_cart
clear_cart-IsSaneCart cart_id [] s = tt
clear_cart-IsSaneCart cart_id ((k, item) ∷ t) s = elim (Bool-cases (item.cart_id == cart_id)) [
  | inl e ↦ rw e (clear_cart-IsSaneCart cart_id t s.1)
  | inr e ↦ rw e (s.0, clear_cart-IsSaneCart cart_id t s.1)
]

insert-IsSaneCart :
    (k : ℕ) (item : CartItem) (t : Table CartItem)
    → pos 0 ≤ℤ item.quantity
    → IsSaneCart t
    → IsSaneCart (insert k item t)
unfolding IsSaneCart
insert-IsSaneCart k item [] h s = (h, tt)
insert-IsSaneCart k item ((j, x) ∷ t) h s = (s.0, insert-IsSaneCart k item t h s.1)

modify-IsSaneCart :
    (k : ℕ) (f : CartItem → CartItem) (t : Table CartItem)
    → ((x : CartItem) → pos 0 ≤ℤ x.quantity → pos 0 ≤ℤ (f x).quantity)
    → IsSaneCart t
    → IsSaneCart (modify k f t)
unfolding IsSaneCart modify
modify-IsSaneCart k f [] h s = tt
modify-IsSaneCart k f ((j, x) ∷ t) h s = elim (Bool-cases (k == j)) [
  | inl e ↦ rw e (h x s.0, s.1)
  | inr e ↦ rw e (s.0, modify-IsSaneCart k f t h s.1)
]

erase-IsSaneCart : (k : ℕ) (t : Table CartItem) → IsSaneCart t → IsSaneCart (erase k t)
unfolding IsSaneCart erase
erase-IsSaneCart k [] s = tt
erase-IsSaneCart k ((j, x) ∷ t) s = elim (Bool-cases (k == j)) [
  | inl e ↦ rw e s.1
  | inr e ↦ rw e (s.0, erase-IsSaneCart k t s.1)
]

-- What a call on a cart leaves of the rest of the database.
pub record Shops (db db' : Db) : Type 0 where
  pub products : db'.products ≡ db.products
  pub orders : db'.orders ≡ db.orders
  pub carts : IsStocked db.products → IsSaneCart db.cart_items → IsSaneCart db'.cart_items

Shops-trans : {a b c : Db} → Shops a b → Shops b c → Shops a c
Shops-trans f g = record {
  products = g.products ∙ f.products;
  orders = g.orders ∙ f.orders;
  carts = λ h s. g.carts (rw f.products h) (f.carts h s);
}

Shops-refl : (db : Db) → Shops db db
Shops-refl db = record { products = refl; orders = refl; carts = λ h s. s }

pub reply_cart-db : (cart_id : ℕ) (db : Db) → (reply_cart cart_id db).1 ≡ db
reply_cart-db cart_id db = elim (Result-cases (cart_lines cart_id db.products db.cart_items)) [
  | inl (lines, e) ↦ rw (e, reply_cart) refl
  | inr (why, e) ↦ rw (e, reply_cart) refl
]

get_or_create-Shops :
    (ids : CartIds) (user_id : ℕ) (db : Db) → Shops db (get_or_create_cart ids user_id db).1
unfolding get_or_create_cart
get_or_create-Shops ids user_id db = elim (Option-cases (find user_id db.carts)) [
  | inl e ↦ rw (e, get_or_create_cart) (record { products = refl; orders = refl; carts = λ h s. s })
  | inr (c, e) ↦ rw (e, get_or_create_cart) (Shops-refl db)
]

upsert_item-Shops :
    (item_id cart_id product_id q : ℕ) (db : Db)
    → Shops db (upsert_item item_id cart_id product_id (pos q) db).2
unfolding upsert_item
upsert_item-Shops item_id cart_id product_id q db =
    elim (Option-cases (find_item cart_id product_id db)) [
      | inl e ↦
          rw (e, upsert_item)
            (record {
              products = refl;
              orders = refl;
              carts = λ h s.
                  insert-IsSaneCart item_id (new_item cart_id product_id (pos q)) db.cart_items
                    (omega arith) s;
            })
      | inr (row, e) ↦
          rw (e, upsert_item)
            (record {
              products = refl;
              orders = refl;
              carts = λ h s.
                  modify-IsSaneCart row.0 (add_quantity (pos q)) db.cart_items
                    (λ x n. omega (int_laws, n)) s;
            })
    ]

clamp_item-Shops :
    (k : ℕ) (avail : ℤ) (db : Db)
    → (IsStocked db.products → pos 0 ≤ℤ avail)
    → Shops db (clamp_item k avail db).1
unfolding clamp_item
clamp_item-Shops k avail db room = elim (Option-cases (find k db.cart_items)) [
  | inl e ↦ rw (e, clamp_item) (Shops-refl db)
  | inr (item, e) ↦ elim (Bool-cases (ltb_ℤ avail item.quantity)) [
    | inr f ↦ rw (e, f, clamp_item) (Shops-refl db)
    | inl f ↦
        rw (e, f, clamp_item)
          (record {
            products = refl;
            orders = refl;
            carts = λ h s. modify-IsSaneCart k (set_quantity avail) db.cart_items (λ x n. room h) s;
          })
  ]
]

reply_cart-Shops : (cart_id : ℕ) (db db' : Db) → Shops db db' → Shops db (reply_cart cart_id db').1
reply_cart-Shops cart_id db db' s = rw (reply_cart-db cart_id db') s

available_stock_nonneg :
    (id : ℕ) (p : Product) (db : Db)
    → find_undeleted id db ≡ some p
    → IsStocked db.products
    → pos 0 ≤ℤ available_stock p
unfolding find_undeleted
available_stock_nonneg id p db e h = elim (Option-cases (find id db.products)) [
  | inl f ↦ absurd (ground arith)
  | inr (x, f) ↦ grind (int_laws, h id)
]

clamped_reply-Shops :
    (cart_id : ℕ) (db : Db) (r : ℕ × Db) → Shops db r.1 → Shops db (clamped_reply cart_id r).1
clamped_reply-Shops cart_id db (count, db') s = elim (Bool-cases (count == 0)) [
  | inl e ↦ rw e (reply_cart-Shops cart_id db db' s)
  | inr e ↦ rw e s
]

clamp_reply-Shops :
    (cart_id : ℕ) (avail : ℤ) (db : Db) (r : ℕ × CartItem × Db)
    → (IsStocked db.products → pos 0 ≤ℤ avail)
    → Shops db r.2
    → Shops db (clamp_reply cart_id avail r).1
clamp_reply-Shops cart_id avail db (k, item, db') room s =
    elim (Bool-cases (ltb_ℤ avail item.quantity)) [
      | inl e ↦ rw e (
          clamped_reply-Shops cart_id db (clamp_item k avail db')
            (Shops-trans s (clamp_item-Shops k avail db' (λ h. room (rw (← s.products) h)))))
      | inr e ↦ rw e (reply_cart-Shops cart_id db db' s)
    ]

-- Adding a product to a cart, in a quantity at least 0, changes neither products nor orders, and where no product is oversold no cart is left with a quantity below 0, also when the call ends in an error.
pub add_item-Shops :
    (ids : CartIds) (user_id product_id q : ℕ) (db : Db)
    → Shops db (add_item ids user_id product_id (pos q) db).1
unfolding add_item
add_item-Shops ids user_id product_id q db = elim (Option-cases (find_undeleted product_id db)) [
  | inl e ↦ rw (e, add_item) (Shops-refl db)
  | inr (p, e) ↦ elim (Bool-cases (is_available p)) [
    | inr f ↦ rw (e, f, add_item) (Shops-refl db)
    | inl f ↦
        let made = get_or_create-Shops ids user_id db in
        rw (e, f, add_item)
          (clamp_reply-Shops (get_or_create_cart ids user_id db).0 (available_stock p) db
            (upsert_item ids.item_id (get_or_create_cart ids user_id db).0 product_id (pos q)
              (get_or_create_cart ids user_id db).1)
            (available_stock_nonneg product_id p db e)
            (Shops-trans made (
              upsert_item-Shops ids.item_id (get_or_create_cart ids user_id db).0 product_id q
                (get_or_create_cart ids user_id db).1)))
  ]
]

erase-Shops : (k : ℕ) (db : Db) → Shops db (record db { cart_items = erase k db.cart_items })
erase-Shops k db = record {
  products = refl;
  orders = refl;
  carts = λ h s. erase-IsSaneCart k db.cart_items s;
}

update_in-Shops :
    (product_id q cart_id : ℕ) (db : Db) → Shops db (update_in product_id (pos q) (cart_id, db)).1
unfolding update_in
update_in-Shops product_id q cart_id db = elim (Option-cases (find_item cart_id product_id db)) [
  | inl e ↦ rw (e, update_in) (Shops-refl db)
  | inr (row, e) ↦ elim (Bool-cases (eqb_ℤ (pos q) (pos 0))) [
    | inl f ↦ rw (e, f, update_in) (reply_cart-Shops cart_id db _ (erase-Shops row.0 db))
    | inr f ↦ elim (Result-cases (check_update (pos q) (find_undeleted product_id db))) [
      | inr (why, g) ↦ rw (e, f, g, update_in) (Shops-refl db)
      | inl (u, g) ↦
          rw (e, f, g, update_in)
            (reply_cart-Shops cart_id db _ (record {
              products = refl;
              orders = refl;
              carts = λ h s.
                  modify-IsSaneCart row.0 (set_quantity (pos q)) db.cart_items (λ x n. omega arith)
                    s;
            }))
    ]
  ]
]

pub update_item-Shops :
    (ids : CartIds) (user_id product_id q : ℕ) (db : Db)
    → Shops db (update_item ids user_id product_id (pos q) db).1
unfolding update_item
update_item-Shops ids user_id product_id q db =
    let made = get_or_create_cart ids user_id db in
    Shops-trans (get_or_create-Shops ids user_id db) (update_in-Shops product_id q made.0 made.1)

remove_from-Shops :
    (product_id cart_id : ℕ) (db : Db) → Shops db (remove_from product_id (cart_id, db)).1
unfolding remove_from
remove_from-Shops product_id cart_id db = elim (Option-cases (find_item cart_id product_id db)) [
  | inl e ↦ rw (e, remove_from) (Shops-refl db)
  | inr (row, e) ↦ rw (e, remove_from) (reply_cart-Shops cart_id db _ (erase-Shops row.0 db))
]

pub remove_item-Shops :
    (ids : CartIds) (user_id product_id : ℕ) (db : Db)
    → Shops db (remove_item ids user_id product_id db).1
unfolding remove_item
remove_item-Shops ids user_id product_id db =
    let made = get_or_create_cart ids user_id db in
    Shops-trans (get_or_create-Shops ids user_id db) (remove_from-Shops product_id made.0 made.1)

pub clear-Shops : (ids : CartIds) (user_id : ℕ) (db : Db) → Shops db (clear ids user_id db).1
unfolding clear
clear-Shops ids user_id db =
    let made = get_or_create_cart ids user_id db in
    Shops-trans (get_or_create-Shops ids user_id db) (
      reply_cart-Shops made.0 made.1 _ (record {
        products = refl;
        orders = refl;
        carts = λ h s. clear_cart-IsSaneCart made.0 made.1.cart_items s;
      }))

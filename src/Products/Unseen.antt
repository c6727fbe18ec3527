-- ===== src/Products/Unseen.antt =====
-- What a removal (apps/api/src/modules/products/products.service.ts) leaves as it is.
use kartit.Prelude.{
  ℕ, ◌≡◌, refl, sym, ap, ◌∙◌, true, false, Option, none, some, List, [], ◌∷◌, arith, ◌==◌, inl, inr,
  Bool-cases, Option-cases, some_inj,
}
use kartit.Prelude.Int.{ℤ}
use kartit.Prelude.Table.{Table, find, count, modify, find-modify}
use kartit.Result.{Result, ok, err, err≢ok}
use kartit.Store.{Db, Product, Order, CartItem}
use kartit.Cart.{cart_lines}
use kartit.Categories.{CacheKey}
use kartit.Products.{
  remove_product, is_referenced, is_item_of, items_of, active_order_count, is_active_status,
  retire_product,
}

-- The products of other ids are found as before.
find-retired :
    (id k : ℕ) (t : Table Product)
    → (k == id) ≡ false
    → find k (modify id retire_product t) ≡ find k t
find-retired id k t e = find-modify k id retire_product t ∙ rw e refl

cart_lines-retired :
    (id cart_id : ℕ) (products : Table Product) (items : Table CartItem)
    → count (is_item_of id) items ≡ 0
    → cart_lines cart_id (modify id retire_product products) items
      ≡ cart_lines cart_id products items
unfolding cart_lines count
cart_lines-retired id cart_id products [] h = refl
cart_lines-retired id cart_id products ((j, item) ∷ items) h =
    let other : (item.product_id == id) ≡ false = ground arith in
    let rest = cart_lines-retired id cart_id products items (ground arith) in
    let same_product = find-retired id item.product_id products other in
    elim (Option-cases (find item.product_id products)) [
      | inl e ↦ rw (cart_lines, same_product, e, rest) refl
      | inr (p, e) ↦ rw (cart_lines, same_product, e, rest) refl
    ]

active_order-free :
    (id k : ℕ) (o : Order) (t : Table Order)
    → active_order_count id t ≡ 0
    → find k t ≡ some o
    → is_active_status o.status ≡ true
    → items_of id o.items ≡ 0
unfolding find active_order_count
active_order-free id k o [] h e a = cc
active_order-free id k o ((j, x) ∷ t) h e a = elim (Bool-cases (k == j)) [
  | inl here ↦
      let same : x ≡ o = some_inj (rw here at e) in
      let active : is_active_status x.status ≡ true =
        ap (λ y. is_active_status y.status) same ∙ a in
      ap (λ y. items_of id y.items) (sym same) ∙ omega (arith, rw active at h)
  | inr there ↦ active_order-free id k o t (omega (arith, h)) (rw there at e) a
]

-- The database of an answer.
abbrev db_of : Db → Result (List CacheKey × Db) → Db
db_of db (err why) = db
db_of db (ok (keys, after)) = after

abbrev pub stock_of : Option Product → Option (ℤ × ℤ)
stock_of none = none
stock_of (some p) = some (p.physical_stock, p.reserved_qty)

stock_of-retired :
    (id k : ℕ) (t : Table Product)
    → stock_of (find k (modify id retire_product t)) ≡ stock_of (find k t)
stock_of-retired id k t =
    ap stock_of (find-modify k id retire_product t) ∙ elim (Bool-cases (k == id)) [
      | inr e ↦ rw e refl
      | inl e ↦ elim (Option-cases (find k t)) [
        | inl f ↦ rw (e, f) refl
        | inr (p, f) ↦ rw (e, f) refl
      ]
    ]

-- A removal that succeeds shows in no cart, leaves the stock of every product as it was, and concerns no item of
-- an order that is still active; the orders themselves stay as they were.
pub remove_product-unseen :
    (id : ℕ) (db db' : Db) (keys : List CacheKey)
    → remove_product id db ≡ ok (keys, db')
    → ((cart_id : ℕ)
        → cart_lines cart_id db'.products db'.cart_items
          ≡ cart_lines cart_id db.products db.cart_items)
      × ((k : ℕ) → stock_of (find k db'.products) ≡ stock_of (find k db.products))
      × (db'.orders ≡ db.orders)
      × ((k : ℕ) (o : Order)
          → find k db'.orders ≡ some o
          → is_active_status o.status ≡ true
          → items_of id o.items ≡ 0)
unfolding remove_product
remove_product-unseen id db db' keys h = elim (Option-cases (find id db.products)) [
  | inl e ↦ absurd (err≢ok (rw (remove_product, e) at h))
  | inr (p, e) ↦ elim (Bool-cases p.is_deleted) [
    | inl deleted ↦ absurd (err≢ok (rw (remove_product, e, deleted) at h))
    | inr live ↦ elim (Bool-cases (is_referenced id db)) [
      | inl used ↦ absurd (err≢ok (rw (remove_product, e, live, used) at h))
      | inr unused ↦
          let after : removed ≡ db' = ap (db_of db) (rw (remove_product, e, live, unused) at h) in
          let no_item : count (is_item_of id) db.cart_items ≡ 0 = ground arith in
          let no_order : active_order_count id db.orders ≡ 0 = ground arith in
          rw (sym after) (
            λ cart_id. cart_lines-retired id cart_id db.products db.cart_items no_item,
            λ k. stock_of-retired id k db.products,
            refl,
            λ k o. active_order-free id k o db.orders no_order,
          )
    ]
  ]
]
  where
    removed : Db
    removed = record db { products = modify id retire_product db.products }

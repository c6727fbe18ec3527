-- ===== src/Cart.antt =====
-- `cartService` (apps/api/src/modules/cart/cart.service.ts). Its calls run one statement after another,
-- not in a transaction, so what an error leaves written stays written: a call gives its reply and the
-- database that it leaves.
pub mod Bounds
pub mod Summary
pub mod Totals
pub mod Clamp
pub mod Tests
use kartit.Prelude.{
  ℕ, Bool, true, false, Option, none, some, List, [], ◌∷◌, ◌==◌, if◌then◌else◌, ◌&&◌, not, map,
}
use kartit.Prelude.Int.{ℤ, pos, ◌+ℤ◌, ◌*ℤ◌, ltb_ℤ, eqb_ℤ}
use kartit.Prelude.Table.{Table, find, modify, insert, erase, find_where}
use kartit.Result.{
  Result, ok, err, Error, record_not_found, not_found, not_found_code, bad_request, cart_empty,
  conflict, product_inactive, insufficient_stock, promotion_invalid, throw_if,
}
use kartit.Shared.Text.{Text, codes}
use kartit.Shared.Pricing.{PricingBreakdown, calculate_pricing}
use kartit.Inventory.{available_stock, find_live}
use kartit.Promotions.{ValidatedPromotion, validate}
use kartit.Store.{Db, Product, CartItem, Promotion}

-- A row of the cart with its product.
pub record Line : Type 0 where
  pub product_id : ℕ
  pub quantity : ℤ
  pub product : Product

abbrev pub cons_line : CartItem → Product → Result (List Line) → Result (List Line)
cons_line item product (err e) = err e
cons_line item product (ok lines) =
    ok
      (record { product_id = item.product_id; quantity = item.quantity; product = product } ∷ lines)

-- The items of a cart, in the order of their creation, each with its product.
unfoldable pub cart_lines : ℕ → Table Product → Table CartItem → Result (List Line)
cart_lines cart_id products [] = ok []
cart_lines cart_id products ((_, item) ∷ t) =
    let rest = cart_lines cart_id products t in
    if item.cart_id == cart_id
    then elim (find item.product_id products) [
      | none ↦ err record_not_found
      | some p ↦ cons_line item p rest
    ]
    else rest

abbrev pub line_total : Line → ℤ
line_total line = line.product.price_minor *ℤ line.quantity

-- `cart.items.reduce((acc, it) => acc + …, 0n)`
unfoldable pub sum_lines : ℤ → List Line → ℤ
sum_lines acc [] = acc
sum_lines acc (line ∷ lines) = sum_lines (acc +ℤ line_total line) lines

-- `cartItem.deleteMany({ where: { cartId } })`
unfoldable pub clear_cart : ℕ → Table CartItem → Table CartItem
clear_cart cart_id [] = []
clear_cart cart_id ((k, item) ∷ t) =
    if item.cart_id == cart_id then clear_cart cart_id t else (k, item) ∷ clear_cart cart_id t

-- `if (promotionCode)`: `none` is no code.
unfoldable pub checked_promotion :
    Option (ℕ × Promotion) → ℕ → Option Text → ℤ → ℕ → Db → Result (Option ValidatedPromotion)
checked_promotion cached now none subtotal user_id db = ok none
checked_promotion cached now (some code) subtotal user_id db =
    elim (validate cached now code subtotal user_id db) [
      | none ↦ err (bad_request promotion_invalid)
      | some promo ↦ ok (some promo)
    ]

-- `CartDTO`, its items as the rows that they are made of.
pub record CartDto : Type 0 where
  pub id : ℕ
  pub items : List Line
  pub currency : Text
  pub subtotal_minor : ℤ
  pub item_count : ℤ

-- `items[0]?.currency ?? "USD"`
abbrev pub cart_currency : List Line → Text
cart_currency [] = codes "USD"
cart_currency (line ∷ _) = line.product.currency

-- `items.reduce((acc, it) => acc + it.quantity, 0)`
unfoldable pub count_items : ℤ → List Line → ℤ
count_items acc [] = acc
count_items acc (line ∷ lines) = count_items (acc +ℤ line.quantity) lines

unfoldable pub to_cart_dto : ℕ → List Line → CartDto
to_cart_dto cart_id lines = record {
  id = cart_id;
  items = lines;
  currency = cart_currency lines;
  subtotal_minor = sum_lines (pos 0) lines;
  item_count = count_items (pos 0) lines;
}

-- The ids that the database makes for a new cart and a new item.
pub record CartIds : Type 0 where
  pub cart_id : ℕ
  pub item_id : ℕ

-- `cart.upsert`: the cart's id.
unfoldable pub get_or_create_cart : CartIds → ℕ → Db → ℕ × Db
get_or_create_cart ids user_id db = elim (find user_id db.carts) [
  | some cart_id ↦ (cart_id, db)
  | none ↦ (ids.cart_id, record db { carts = insert user_id ids.cart_id db.carts })
]

-- The reply that every call but `summary` ends with.
abbrev pub reply_cart : ℕ → Db → Result CartDto × Db
reply_cart cart_id db = elim (cart_lines cart_id db.products db.cart_items) [
  | err e ↦ (err e, db)
  | ok lines ↦ (ok (to_cart_dto cart_id lines), db)
]

unfoldable pub get_cart : CartIds → ℕ → Db → Result CartDto × Db
get_cart ids user_id db =
    let (cart_id, db') = get_or_create_cart ids user_id db in reply_cart cart_id db'

-- `cartId_productId`
abbrev pub is_item : ℕ → ℕ → CartItem → Bool
is_item cart_id product_id item = (item.cart_id == cart_id) && (item.product_id == product_id)

abbrev pub find_item : ℕ → ℕ → Db → Option (ℕ × CartItem)
find_item cart_id product_id db = find_where (is_item cart_id product_id) db.cart_items

abbrev pub set_quantity : ℤ → CartItem → CartItem
set_quantity q item = record item { quantity = q }

abbrev pub add_quantity : ℤ → CartItem → CartItem
add_quantity q item = record item { quantity = item.quantity +ℤ q }

abbrev pub new_item : ℕ → ℕ → ℤ → CartItem
new_item cart_id product_id q = record { cart_id = cart_id; product_id = product_id; quantity = q }

-- `cartItem.upsert`: the row's id, the row as it then is, and the database.
unfoldable pub upsert_item : ℕ → ℕ → ℕ → ℤ → Db → ℕ × CartItem × Db
upsert_item item_id cart_id product_id q db = elim (find_item cart_id product_id db) [
  | none ↦
      let item = new_item cart_id product_id q in
      (item_id, item, record db { cart_items = insert item_id item db.cart_items })
  | some (k, item) ↦
      (k, add_quantity q item, record db { cart_items = modify k (add_quantity q) db.cart_items })
]

-- `updateMany({ where: { id, quantity: { gt: avail } }, data: { quantity: avail } })`
unfoldable pub clamp_item : ℕ → ℤ → Db → ℕ × Db
clamp_item k avail db = elim (find k db.cart_items) [
  | none ↦ (0, db)
  | some item ↦
      if ltb_ℤ avail item.quantity
      then (1, record db { cart_items = modify k (set_quantity avail) db.cart_items })
      else (0, db)
]

-- `if (item.quantity > avail)` and what follows.
abbrev pub clamped_reply : ℕ → ℕ × Db → Result CartDto × Db
clamped_reply cart_id (count, db) =
    if count == 0 then reply_cart cart_id db else (err (conflict insufficient_stock), db)

abbrev pub clamp_reply : ℕ → ℤ → ℕ × CartItem × Db → Result CartDto × Db
clamp_reply cart_id avail (k, item, db) =
    if ltb_ℤ avail item.quantity
    then clamped_reply cart_id (clamp_item k avail db)
    else reply_cart cart_id db

abbrev pub add_to_cart : CartIds → ℕ → ℤ → Product → ℕ × Db → Result CartDto × Db
add_to_cart ids product_id q product (cart_id, db) =
    clamp_reply cart_id (available_stock product) (upsert_item ids.item_id cart_id product_id q db)

abbrev pub is_available : Product → Bool
is_available product = product.is_active && product.category_active

-- `findUnique({ where: { id, deletedAt: null } })`
unfoldable pub find_undeleted : ℕ → Db → Option Product
find_undeleted id db = elim (find id db.products) [
  | none ↦ none
  | some p ↦ if p.is_deleted then none else some p
]

unfoldable pub add_item : CartIds → ℕ → ℕ → ℤ → Db → Result CartDto × Db
add_item ids user_id product_id q db = elim (find_undeleted product_id db) [
  | none ↦ (err (not_found not_found_code), db)
  | some product ↦
      if is_available product
      then add_to_cart ids product_id q product (get_or_create_cart ids user_id db)
      else (err (bad_request product_inactive), db)
]

-- The checks of `updateItem` on a quantity other than 0.
abbrev pub check_update : ℤ → Option Product → Result (Unit {0})
check_update q none = err (bad_request product_inactive)
check_update q (some product) =
    if is_available product
    then throw_if (ltb_ℤ (available_stock product) q) (conflict insufficient_stock)
    else err (bad_request product_inactive)

abbrev pub delete_item : ℕ → Db → Db
delete_item k db = record db { cart_items = erase k db.cart_items }

abbrev pub write_quantity : ℕ → ℤ → Db → Db
write_quantity k q db = record db { cart_items = modify k (set_quantity q) db.cart_items }

unfoldable pub update_in : ℕ → ℤ → ℕ × Db → Result CartDto × Db
update_in product_id q (cart_id, db) = elim (find_item cart_id product_id db) [
  | none ↦ (err (not_found not_found_code), db)
  | some (k, _) ↦
      if eqb_ℤ q (pos 0)
      then reply_cart cart_id (delete_item k db)
      else elim (check_update q (find_undeleted product_id db)) [
        | err e ↦ (err e, db)
        | ok _ ↦ reply_cart cart_id (write_quantity k q db)
      ]
]

unfoldable pub update_item : CartIds → ℕ → ℕ → ℤ → Db → Result CartDto × Db
update_item ids user_id product_id q db = update_in product_id q (get_or_create_cart ids user_id db)

unfoldable pub remove_from : ℕ → ℕ × Db → Result CartDto × Db
remove_from product_id (cart_id, db) = elim (find_item cart_id product_id db) [
  | none ↦ (err (not_found not_found_code), db)
  | some (k, _) ↦ reply_cart cart_id (delete_item k db)
]

unfoldable pub remove_item : CartIds → ℕ → ℕ → Db → Result CartDto × Db
remove_item ids user_id product_id db = remove_from product_id (get_or_create_cart ids user_id db)

abbrev pub clear_in : ℕ × Db → Result CartDto × Db
clear_in (cart_id, db) =
    reply_cart cart_id (record db { cart_items = clear_cart cart_id db.cart_items })

unfoldable pub clear : CartIds → ℕ → Db → Result CartDto × Db
clear ids user_id db = clear_in (get_or_create_cart ids user_id db)

-- ===== src/Orders/Accounting.antt =====
-- The stock accounts: what the order services owe to the products' two columns. A unit is held by an
-- order from its creation until it ships or is released, and away from then until it comes back.
use kartit.Prelude.{ℕ, ◌≡◌, refl, ◌∙◌, Bool, true, false, some, List, [], ◌∷◌, arith, if◌then◌else◌}
use kartit.Prelude.Int.{ℤ, pos, ◌+ℤ◌, int_laws, parts_of_eq}
use kartit.Prelude.Table.{Table, find, modify, sum_by, sum_by-modify, IsDistinct, IsDistinct-modify}
use kartit.Result.{ok}
use kartit.Shared.Enums.{OrderStatus, pending}
use kartit.Shared.Transitions.{status_eq}
use kartit.Inventory.{restore_inventory, ship_inventory}
use kartit.Inventory.Effects.{
  reserved, physical, qty, qty_nonneg, IsNonneg, IsStocked, reserved-restore, physical-restore,
  ship_inventory-falls,
}
use kartit.Store.{Db, Order, OrderItem, Product}
use kartit.Cart.Bounds.{IsSaneCart}
use kartit.Orders.Progress.{
  is_held, is_away, Progress, Progress-release, Progress-return, Progress-relabel, TableProgress,
  TableProgress-refl, TableProgress-trans, TableProgress-modify,
}

-- The quantity of the product in an order that satisfies the test.
abbrev pub weight : (OrderStatus → Bool) → ℕ → Order → ℤ
weight test p o = if test o.status then qty p o.items else pos 0

-- What all orders hold of the product, and what has left with them.
abbrev pub held : ℕ → Db → ℤ
held p db = sum_by (weight is_held p) db.orders

abbrev pub away : ℕ → Db → ℤ
away p db = sum_by (weight is_away p) db.orders

-- The reserved column is what the orders hold.
abbrev pub IsBalanced : Db → Type 0
IsBalanced db = (p : ℕ) → reserved p db.products ≡ held p db

-- Orders that name no quantity below 0.
unfoldable pub IsSane : Table Order → Type 0
IsSane [] = Unit
IsSane ((_, o) ∷ t) = IsNonneg o.items × IsSane t

-- What a change of the database keeps.
pub record Keeps (db db' : Db) : Type 0 where
  pub balance : IsBalanced db → IsBalanced db'
  pub conserved :
      (p : ℕ) → physical p db'.products +ℤ away p db' ≡ physical p db.products +ℤ away p db
  pub distinct : IsDistinct db.orders → IsDistinct db'.orders
  pub sane : IsSane db.orders → IsSane db'.orders
  pub stocked : IsSane db.orders → IsStocked db.products → IsStocked db'.products
  pub carts : IsSaneCart db.cart_items → IsSaneCart db'.cart_items
  pub progress : TableProgress db.orders db'.orders

pub Keeps-refl : (db : Db) → Keeps db db
Keeps-refl db = record {
  balance = λ h. h;
  conserved = λ p. refl;
  distinct = λ h. h;
  sane = λ h. h;
  stocked = λ s h. h;
  carts = λ h. h;
  progress = TableProgress-refl db.orders;
}

pub Keeps-trans : {a b c : Db} → Keeps a b → Keeps b c → Keeps a c
Keeps-trans f g = record {
  balance = λ h. g.balance (f.balance h);
  conserved = λ p. g.conserved p ∙ f.conserved p;
  distinct = λ h. g.distinct (f.distinct h);
  sane = λ h. g.sane (f.sane h);
  stocked = λ s h. g.stocked (f.sane s) (f.stocked s h);
  carts = λ h. g.carts (f.carts h);
  progress = TableProgress-trans _ _ _ f.progress g.progress;
}

-- Only the products, the orders and the carts count.
pub Keeps-same :
    {db a b : Db}
    → b.products ≡ a.products
    → (b.orders ≡ a.orders) × (b.cart_items ≡ a.cart_items)
    → Keeps db a
    → Keeps db b
Keeps-same {db} {a} {b} e (f, g) k = record {
  balance = λ h p. rw (e, f) (k.balance h p);
  conserved = λ p. rw (e, f) (k.conserved p);
  distinct = λ h. rw f (k.distinct h);
  sane = λ h. rw f (k.sane h);
  stocked = λ s h. rw e (k.stocked s h);
  carts = λ h. rw g (k.carts h);
  progress = λ id o e. rw f (k.progress id o e);
}

IsSane-find :
    (id : ℕ) (o : Order) (t : Table Order) → IsSane t → find id t ≡ some o → IsNonneg o.items
unfolding IsSane find
IsSane-find id o [] s e = cc
IsSane-find id o ((k, x) ∷ t) s e = ground (arith, IsSane-find id o t s.1)

IsSane-modify :
    (id : ℕ) (f : Order → Order) (t : Table Order)
    → ((o : Order) → (f o).items ≡ o.items)
    → IsSane t
    → IsSane (modify id f t)
unfolding IsSane modify
IsSane-modify id f [] h s = tt
IsSane-modify id f ((k, x) ∷ t) h s = ground (arith, h x, IsSane-modify id f t h s.1)

pub items_of_find :
    (id : ℕ) (t : Table Order) (items : List OrderItem) (o x : Order)
    → find id t ≡ some o
    → find id t ≡ some x
    → items ≡ o.items
    → items ≡ x.items
items_of_find id t items o x found here same = ground arith

weight_on :
    (test : OrderStatus → Bool) (p : ℕ) (o x : Order)
    → test o.status ≡ true
    → o.items ≡ x.items
    → weight test p o ≡ qty p x.items
weight_on test p o x h e = ground arith

weight_off :
    (test : OrderStatus → Bool) (p : ℕ) (o : Order)
    → test o.status ≡ false
    → weight test p o ≡ pos 0
weight_off test p o h = ground arith

-- One order rewritten, its items kept, and the products with it.
module _ (db : Db) (id : ℕ) (o : Order) (f : Order → Order) (t' : Table Product)
    (found : find id db.orders ≡ some o) (kept : (x : Order) → (f x).items ≡ x.items) where
  abbrev moved : Db
  moved = record db { products = t'; orders = modify id f db.orders }

  Keeps-move :
      ((p : ℕ)
        → reserved p t' +ℤ weight is_held p o ≡ reserved p db.products +ℤ weight is_held p (f o))
      → ((p : ℕ)
          → physical p t' +ℤ weight is_away p (f o) ≡ physical p db.products +ℤ weight is_away p o)
      → (IsNonneg o.items → IsStocked db.products → IsStocked t')
      → Progress o.status (f o).status
      → Keeps db moved
  Keeps-move dr dp ds moves = record {
    balance = λ h p. omega (
      int_laws,
      parts_of_eq (h p),
      parts_of_eq (dr p),
      parts_of_eq (sum_by-modify (weight is_held p) id f o db.orders found),
    );
    conserved = λ p. omega (
      int_laws,
      parts_of_eq (dp p),
      parts_of_eq (sum_by-modify (weight is_away p) id f o db.orders found),
    );
    distinct = λ d. IsDistinct-modify id f db.orders d;
    sane = λ s. IsSane-modify id f db.orders kept s;
    stocked = λ s h. ds (IsSane-find id o db.orders s found) h;
    carts = λ h. h;
    progress = TableProgress-modify id o f db.orders found moves;
  }

  -- A held order is released: its reservation goes.
  pub Keeps-release :
      is_held o.status ≡ true
      → is_away o.status ≡ false
      → is_held (f o).status ≡ false
      → is_away (f o).status ≡ false
      → restore_inventory db.products o.items false ≡ ok t'
      → Keeps db moved
  Keeps-release a b c d e =
      Keeps-move
        (λ p. omega (
          int_laws,
          parts_of_eq (weight_on is_held p o o a refl),
          parts_of_eq (weight_off is_held p (f o) c),
          parts_of_eq (reserved-restore p o.items db.products t' e).0,
        ))
        (λ p. omega (
          int_laws,
          parts_of_eq (weight_off is_away p o b),
          parts_of_eq (weight_off is_away p (f o) d),
          parts_of_eq (reserved-restore p o.items db.products t' e).1,
        ))
        (λ n h p. omega (
          int_laws,
          h p,
          qty_nonneg p o.items n,
          parts_of_eq (reserved-restore p o.items db.products t' e).0,
          parts_of_eq (reserved-restore p o.items db.products t' e).1,
        ))
        (Progress-release o.status (f o).status a c)

  -- A shipped order comes back: its items are stock again.
  pub Keeps-return :
      is_held o.status ≡ false
      → is_away o.status ≡ true
      → is_held (f o).status ≡ false
      → is_away (f o).status ≡ false
      → restore_inventory db.products o.items true ≡ ok t'
      → Keeps db moved
  Keeps-return a b c d e =
      Keeps-move
        (λ p. omega (
          int_laws,
          parts_of_eq (weight_off is_held p o a),
          parts_of_eq (weight_off is_held p (f o) c),
          parts_of_eq (physical-restore p o.items db.products t' e).1,
        ))
        (λ p. omega (
          int_laws,
          parts_of_eq (weight_on is_away p o o b refl),
          parts_of_eq (weight_off is_away p (f o) d),
          parts_of_eq (physical-restore p o.items db.products t' e).0,
        ))
        (λ n h p. omega (
          int_laws,
          h p,
          qty_nonneg p o.items n,
          parts_of_eq (physical-restore p o.items db.products t' e).0,
          parts_of_eq (physical-restore p o.items db.products t' e).1,
        ))
        (Progress-return o.status (f o).status b c)

  -- A held order ships: its items and its reservation go together.
  pub Keeps-ship :
      is_held o.status ≡ true
      → is_away o.status ≡ false
      → is_held (f o).status ≡ false
      → is_away (f o).status ≡ true
      → ship_inventory db.products o.items ≡ ok t'
      → Keeps db moved
  Keeps-ship a b c d e =
      Keeps-move
        (λ p. omega (
          int_laws,
          parts_of_eq (weight_on is_held p o o a refl),
          parts_of_eq (weight_off is_held p (f o) c),
          parts_of_eq (ship_inventory-falls p o.items db.products t' e).1,
        ))
        (λ p. omega (
          int_laws,
          parts_of_eq (weight_off is_away p o b),
          parts_of_eq (weight_on is_away p (f o) o d (kept o)),
          parts_of_eq (ship_inventory-falls p o.items db.products t' e).0,
        ))
        (λ n h p. omega (
          int_laws,
          h p,
          parts_of_eq (ship_inventory-falls p o.items db.products t' e).0,
          parts_of_eq (ship_inventory-falls p o.items db.products t' e).1,
        ))
        (Progress-release o.status (f o).status a c)

  -- A status that counts as the old one does, and no change of the products.
  pub Keeps-relabel :
      is_held (f o).status ≡ is_held o.status
      → is_away (f o).status ≡ is_away o.status
      → t' ≡ db.products
      → status_eq (f o).status pending ≡ false
      → Keeps db moved
  Keeps-relabel a b e g =
      Keeps-move (λ p. ground (arith, kept o)) (λ p. ground (arith, kept o)) (λ n h. rw e h)
        (Progress-relabel o.status (f o).status a b g)

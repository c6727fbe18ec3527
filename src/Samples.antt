-- ===== src/Samples.antt =====
-- A small shop for the examples: one product with five units, one customer with two of them in the cart.
use kartit.Prelude.{ℕ, Bool, true, false, none, some, [], ◌∷◌, leb}
use kartit.Prelude.Int.{pos}
use kartit.Shared.Text.{Text, codes}
use kartit.Shared.Enums.{percentage}
use kartit.Store.{Db, Product, OrderItem, Address, CartItem, Promotion}
use kartit.Orders.{Ctx}
use kartit.Orders.Create.{Input, NewOrder}

abbrev pub before_id : ℕ → ℕ → Bool
before_id a b = leb a b

abbrev pub usd : Text
usd = codes "USD"

abbrev pub lamp : Product
lamp = record {
  name = codes "Lamp";
  slug = codes "lamp";
  cover = none;
  price_minor = pos 1000;
  currency = usd;
  physical_stock = pos 5;
  reserved_qty = pos 0;
  is_active = true;
  category_active = true;
  is_deleted = false;
}

abbrev pub two_lamps : OrderItem
two_lamps = record {
  product_id = 1;
  product_name = codes "Lamp";
  product_slug = codes "lamp";
  image_url = none;
  unit_price_minor = pos 1000;
  currency = usd;
  quantity = pos 2;
  total_minor = pos 2000;
}

abbrev pub home : Address
home = record {
  user_id = 7;
  name = codes "Ada";
  phone = codes "1";
  line1 = codes "High Street";
  line2 = none;
  city = codes "Leeds";
  state = none;
  postal_code = codes "LS1";
  country = some (codes "UK");
}

abbrev pub in_cart : CartItem
in_cart = record { cart_id = 70; product_id = 1; quantity = pos 2 }

-- A tenth off, for one order in all.
abbrev pub tenth : Promotion
tenth = record {
  code = codes "TENTH";
  type = percentage;
  value = pos 1000;
  min_subtotal_minor = none;
  max_uses = some 1;
  max_uses_per_user = some 1;
  starts_at = none;
  ends_at = none;
  is_active = true;
}

abbrev pub shop : Db
shop = record {
  products = (1, lamp) ∷ [];
  orders = [];
  payments = [];
  outbox = [];
  addresses = (3, home) ∷ [];
  carts = (7, 70) ∷ [];
  cart_items = (1, in_cart) ∷ [];
  promotions = (4, tenth) ∷ [];
  refund_requests = [];
}

abbrev pub ids : NewOrder
ids = record {
  now = 100;
  order_id = 11;
  payment_id = 12;
  outbox_id = 13;
  order_number = codes "KART-1";
}

abbrev pub ctx : Ctx
ctx = record { now = 200; outbox_id = 14 }

abbrev pub input : Input
input = record { shipping_address_id = 3; promotion_code = none }

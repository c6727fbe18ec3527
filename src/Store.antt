-- ===== src/Store.antt =====
-- The database as the services see it (packages/db/prisma/schema.prisma): a table of rows under their
-- primary keys for each model that they touch, in the order of creation, and a transaction as a
-- function from the database to an error or to a result and the new database, so that a thrown error
-- rolls every write back. Ids, times (in milliseconds) and provider ids are numbers.
use kartit.Prelude.{ℕ, Bool, Option, none, some, List}
use kartit.Prelude.Int.{ℤ}
use kartit.Prelude.Table.{Table, find, modify, insert}
use kartit.Result.{Result, ok, err, Error, record_not_found}
use kartit.Shared.Text.{Text}
use kartit.Shared.Enums.{OrderStatus, PaymentStatus, PromotionType}

pub record Product : Type 0 where
  pub name : Text
  pub slug : Text
  pub cover : Option Text
  pub price_minor : ℤ
  pub currency : Text
  pub physical_stock : ℤ
  pub reserved_qty : ℤ
  pub is_active : Bool
  -- `category.isActive` of the product's category
  pub category_active : Bool
  -- `deletedAt` is set
  pub is_deleted : Bool

pub record OrderItem : Type 0 where
  pub product_id : ℕ
  pub product_name : Text
  pub product_slug : Text
  pub image_url : Option Text
  pub unit_price_minor : ℤ
  pub currency : Text
  pub quantity : ℤ
  pub total_minor : ℤ

pub record Address : Type 0 where
  pub user_id : ℕ
  pub name : Text
  pub phone : Text
  pub line1 : Text
  pub line2 : Option Text
  pub city : Text
  pub state : Option Text
  pub postal_code : Text
  pub country : Option Text

pub record Order : Type 0 where
  pub order_number : Text
  pub user_id : ℕ
  pub status : OrderStatus
  pub subtotal_minor : ℤ
  pub discount_minor : ℤ
  pub shipping_minor : ℤ
  pub tax_minor : ℤ
  pub total_minor : ℤ
  pub promotion_id : Option ℕ
  pub promotion_code : Option Text
  pub currency : Text
  pub ship_to : Address
  pub items : List OrderItem
  pub paid_at : Option ℕ
  pub delivered_at : Option ℕ
  pub created_at : ℕ
  pub updated_at : ℕ

pub record Payment : Type 0 where
  pub order_id : ℕ
  pub provider_payment_id : Option ℕ
  pub status : PaymentStatus
  pub amount_minor : ℤ
  pub currency : Text
  pub failure_reason : Option Text

pub record CartItem : Type 0 where
  pub cart_id : ℕ
  pub product_id : ℕ
  pub quantity : ℤ

pub record Promotion : Type 0 where
  pub code : Text
  pub type : PromotionType
  pub value : ℤ
  pub min_subtotal_minor : Option ℤ
  pub max_uses : Option ℕ
  pub max_uses_per_user : Option ℕ
  pub starts_at : Option ℕ
  pub ends_at : Option ℕ
  pub is_active : Bool

pub data RequestStatus : Type 0 where
  request_pending approved rejected : RequestStatus

pub record RefundRequest : Type 0 where
  pub order_id : ℕ
  pub user_id : ℕ
  pub status : RequestStatus
  pub reason : Option Text
  pub reviewed_by : Option ℕ
  pub reviewed_at : Option ℕ

-- The payload that the paid, failed and refunded events share.
pub record EventPayload : Type 0 where
  pub order_number : Text
  pub total_minor : ℤ
  pub currency : Text
  pub user_id : ℕ
  pub provider_payment_id : Option ℕ

-- `eventType` with its payload.
pub data OrderEvent : Type 0 where
  order_created order_paid order_refunded : EventPayload → OrderEvent
  order_cancelled : (was_paid : Bool) (user_id : ℕ) → OrderEvent
  order_payment_failed : (failure_reason : Text) → EventPayload → OrderEvent

pub data OutboxStatus : Type 0 where
  outbox_pending sent outbox_failed : OutboxStatus

pub record Outbox : Type 0 where
  pub aggregate_id : ℕ
  pub event : OrderEvent
  pub status : OutboxStatus
  pub attempts : ℕ
  pub sent_at : Option ℕ

pub record Db : Type 0 where
  pub products : Table Product
  pub orders : Table Order
  pub payments : Table Payment
  pub outbox : Table Outbox
  pub addresses : Table Address
  -- user id to cart id
  pub carts : Table ℕ
  pub cart_items : Table CartItem
  pub promotions : Table Promotion
  pub refund_requests : Table RefundRequest

abbrev pub Tx : Type 0 → Type 0
Tx A = Db → Result (A × Db)

abbrev pub ⊤ : Type 0
⊤ = Unit

module _ {A : Type 0} where
  abbrev pub pure : A → Tx A
  pure a db = ok (a, db)

  abbrev pub gets : (Db → A) → Tx A
  gets f db = ok (f db, db)

  abbrev pub throw : Error → Tx A
  throw e db = err e

  abbrev pub lift : Result A → Tx A
  lift (ok a) db = ok (a, db)
  lift (err e) db = err e

infixl 5 ◌>>=◌ ◌>>◌
abbrev pub ◌>>=◌ : {A B : Type 0} → Tx A → (A → Tx B) → Tx B
◌>>=◌ m f db = elim (m db) [ ok p ↦ f p.0 p.1 | err e ↦ err e ]

abbrev pub ◌>>◌ : {B : Type 0} → Tx ⊤ → Tx B → Tx B
m >> k = m >>= λ _. k

abbrev pub put : (Db → Db) → Tx ⊤
put f db = ok (tt, f db)

-- What the database is after a call: a transaction that throws is rolled back.
abbrev pub after : {A : Type 0} → Result (A × Db) → Db → Db
after (ok p) db = p.1
after (err _) db = db

-- `update({ where: { id } })`: P2025 where the row is not there.
unfoldable pub update_row : {V : Type 0} → ℕ → (V → V) → Table V → Result (Table V)
update_row k f t = elim (find k t) [ none ↦ err record_not_found | some _ ↦ ok (modify k f t) ]

-- `outbox.create`; the database client makes the id.
abbrev pub outbox_create : ℕ → ℕ → OrderEvent → Db → Db
outbox_create outbox_id order_id event db = record db {
  outbox =
      insert outbox_id
        (record {
          aggregate_id = order_id;
          event = event;
          status = outbox_pending;
          attempts = 0;
          sent_at = none;
        })
        db.outbox;
}

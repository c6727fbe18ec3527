-- ===== src/Shared/Enums.antt =====
-- packages/shared/src/enums.ts: the enumerations and the inventory lifecycle sets.
use kartit.Prelude.{ℕ, Bool, true, false}

abbrev pub refund_window_days : ℕ
refund_window_days = 7

pub data OrderStatus : Type 0 where
  pending paid processing shipped delivered cancelled failed refunded : OrderStatus

pub data PaymentStatus : Type 0 where
  requires_payment payment_succeeded payment_failed payment_refunded : PaymentStatus

pub data PromotionType : Type 0 where
  percentage fixed_amount : PromotionType

-- `===` on statuses.
abbrev pub status_index : OrderStatus → ℕ
status_index pending = 0
status_index paid = 1
status_index processing = 2
status_index shipped = 3
status_index delivered = 4
status_index cancelled = 5
status_index failed = 6
status_index refunded = 7

abbrev pub payment_index : PaymentStatus → ℕ
payment_index requires_payment = 0
payment_index payment_succeeded = 1
payment_index payment_failed = 2
payment_index payment_refunded = 3

-- `STOCK_HELD.has`
abbrev pub stock_held : OrderStatus → Bool
stock_held pending = true
stock_held paid = true
stock_held processing = true
stock_held shipped = true
stock_held delivered = true
stock_held _ = false

-- `STOCK_RELEASE.has`
abbrev pub stock_release : OrderStatus → Bool
stock_release cancelled = true
stock_release failed = true
stock_release refunded = true
stock_release _ = false

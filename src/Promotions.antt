-- ===== src/Promotions.antt =====
-- apps/api/src/modules/promotions/promotions.service.ts (`validate`) and
-- apps/api/src/modules/orders/orders.promotion-lock.ts. What the cache answers is an argument, since it
-- may be older than the table; the counts of uses always come from the table.
pub mod Limits
pub mod Tests
use kartit.Prelude.{
  ℕ, ◌≤◌, Bool, true, false, Option, none, some, List, [], ◌∷◌, ◌==◌, if◌then◌else◌, ◌&&◌, not, leb,
  ltb,
}
use kartit.Prelude.Int.{ℤ, pos, ◌+ℤ◌, ◌*ℤ◌, ltb_ℤ, eqb_ℤ}
use kartit.Prelude.Table.{Table, find, find_where, count}
use kartit.Result.{Result, ok, err, conflict, promotion_exhausted, throw_if, ◌>>=◌, ◌>>◌}
use kartit.Shared.Text.{Text, citext_eq}
use kartit.Shared.Enums.{
  OrderStatus, PromotionType, percentage, fixed_amount, cancelled, failed, refunded, stock_release,
}
use kartit.Shared.Pricing.{div_trunc}
use kartit.Store.{Db, Order, Promotion}

pub record ValidatedPromotion : Type 0 where
  pub id : ℕ
  pub code : Text
  pub type : PromotionType
  pub discount_minor : ℤ

-- `invalidStatuses`: the discount was reversed.
abbrev pub is_reversed : OrderStatus → Bool
is_reversed cancelled = true
is_reversed failed = true
is_reversed refunded = true
is_reversed _ = false

abbrev pub is_promotion : ℕ → Option ℕ → Bool
is_promotion id none = false
is_promotion id (some k) = k == id

-- `order.count({ where: { promotionId, status: { notIn: invalidStatuses } } })`
abbrev pub is_use : ℕ → Order → Bool
is_use id o = is_promotion id o.promotion_id && not (is_reversed o.status)

abbrev pub is_use_by : ℕ → ℕ → Order → Bool
is_use_by id user_id o = is_use id o && (o.user_id == user_id)

abbrev pub total_use_count : ℕ → Table Order → ℕ
total_use_count id = count (is_use id)

abbrev pub user_use_count : ℕ → ℕ → Table Order → ℕ
user_use_count id user_id = count (is_use_by id user_id)

-- `max !== null && used >= max`
abbrev pub is_exhausted : Option ℕ → ℕ → Bool
is_exhausted none used = false
is_exhausted (some max) used = leb max used

abbrev pub is_before : ℕ → Option ℕ → Bool
is_before now none = false
is_before now (some start) = ltb now start

abbrev pub is_after : ℕ → Option ℕ → Bool
is_after now none = false
is_after now (some end) = ltb end now

-- `minSubtotal && subtotal < minSubtotal`
abbrev pub is_below : ℤ → Option ℤ → Bool
is_below subtotal none = false
is_below subtotal (some min) = not (eqb_ℤ min (pos 0)) && ltb_ℤ subtotal min

-- The discount before it is held at 0 or above: a percentage is in hundredths of a percent.
unfoldable pub raw_discount : PromotionType → ℤ → ℤ → ℤ
raw_discount percentage value subtotal = div_trunc (subtotal *ℤ value +ℤ pos 5000) 10000
raw_discount fixed_amount value subtotal = if ltb_ℤ subtotal value then subtotal else value

unfoldable pub discount_for : PromotionType → ℤ → ℤ → ℤ
discount_for type value subtotal =
    let d = raw_discount type value subtotal in if ltb_ℤ (pos 0) d then d else pos 0

-- The cached record, or else the table's row under the code, in whatever case it is written.
abbrev pub promotion_record : Option (ℕ × Promotion) → Text → Db → Option (ℕ × Promotion)
promotion_record (some row) code db = some row
promotion_record none code db = find_where (λ p. citext_eq p.code code) db.promotions

-- Every guard of `validate` that returns null.
unfoldable pub is_rejected : ℕ → ℤ → ℕ → ℕ → Promotion → Table Order → Bool
is_rejected now subtotal user_id id promo orders =
    if not promo.is_active
    then true
    else if is_before now promo.starts_at
    then true
    else if is_after now promo.ends_at
    then true
    else if is_below subtotal promo.min_subtotal_minor
    then true
    else if is_exhausted promo.max_uses (total_use_count id orders)
    then true
    else is_exhausted promo.max_uses_per_user (user_use_count id user_id orders)

unfoldable pub validate : Option (ℕ × Promotion) → ℕ → Text → ℤ → ℕ → Db → Option ValidatedPromotion
validate cached now code subtotal user_id db = elim (promotion_record cached code db) [
  | none ↦ none
  | some (id, promo) ↦
      if is_rejected now subtotal user_id id promo db.orders
      then none
      else some (record {
        id = id;
        code = promo.code;
        type = promo.type;
        discount_minor = discount_for promo.type promo.value subtotal;
      })
]

-- The check inside the order's transaction, under the promotion's lock.
unfoldable pub lock_promotion : ℕ → ℕ → Db → Result (Unit {0})
lock_promotion id user_id db = elim (find id db.promotions) [
  | none ↦ ok tt
  | some promo ↦ do
    throw_if (is_exhausted promo.max_uses (total_use_count id db.orders))
        (conflict promotion_exhausted)
    throw_if (is_exhausted promo.max_uses_per_user (user_use_count id user_id db.orders))
        (conflict promotion_exhausted)
]

-- ===== src/Promotions/Limits.antt =====
-- The discount's bounds (apps/api/src/modules/promotions/promotions.service.ts).
use kartit.Prelude.{
  ℕ, ◌≤◌, ◌<◌, ◌*◌, ◌+◌, ◌/◌, ◌≡◌, ◌≢◌, refl, true, false, Option, none, some, arith, inl, inr,
  Bool-cases,
}
use kartit.Prelude.Int.{ℤ, pos, ◌+ℤ◌, ◌*ℤ◌, ◌≤ℤ◌}
use kartit.Shared.Text.{Text}
use kartit.Shared.Enums.{PromotionType, percentage, fixed_amount}
use kartit.Store.{Db, Order, Promotion}
use kartit.Prelude.Table.{Table}
use kartit.Promotions.{
  ValidatedPromotion, total_use_count, user_use_count, is_before, is_after, is_below, is_exhausted,
  raw_discount, discount_for, promotion_record, is_rejected, validate,
}

percentage_of : (s v : ℕ) → raw_discount percentage (pos v) (pos s) ≡ pos ((s * v + 5000) / 10000)
unfolding raw_discount ◌*ℤ◌ ◌+ℤ◌
percentage_of s v = ground arith

-- A whole, in hundredths of a percent, is 10000.
at_most_whole : (s v : ℕ) → v ≤ 10000 → (s * v + 5000) / 10000 ≤ s
at_most_whole s v h = grind arith

percentage_bounds :
    (v s : ℕ)
    → v ≤ 10000
    → (pos 0 ≤ℤ discount_for percentage (pos v) (pos s))
      × (discount_for percentage (pos v) (pos s) ≤ℤ pos s)
unfolding discount_for
percentage_bounds v s h = ground (arith, percentage_of s v, at_most_whole s v h)

fixed_amount_bounds :
    (v s : ℕ)
    → (pos 0 ≤ℤ discount_for fixed_amount (pos v) (pos s))
      × (discount_for fixed_amount (pos v) (pos s) ≤ℤ pos s)
unfolding discount_for raw_discount
fixed_amount_bounds v s = ground arith

-- A percentage of at most the whole.
abbrev pub IsFair : PromotionType → ℕ → Type 0
IsFair percentage v = v ≤ 10000
IsFair fixed_amount v = Unit

discount_for_bounds :
    (type : PromotionType) (v s : ℕ)
    → IsFair type v
    → (pos 0 ≤ℤ discount_for type (pos v) (pos s)) × (discount_for type (pos v) (pos s) ≤ℤ pos s)
discount_for_bounds percentage v s h = percentage_bounds v s h
discount_for_bounds fixed_amount v s h = fixed_amount_bounds v s

-- What a customer has to meet, read off the promotion's terms.
pub record IsEligible (now s user_id id : ℕ) (promo : Promotion) (orders : Table Order)
    : Type 0 where
  pub active : promo.is_active ≡ true
  pub started : (t : ℕ) → promo.starts_at ≡ some t → t ≤ now
  pub unended : (t : ℕ) → promo.ends_at ≡ some t → now ≤ t
  pub reached : (m : ℤ) → promo.min_subtotal_minor ≡ some m → m ≤ℤ pos s
  pub uses_left : (m : ℕ) → promo.max_uses ≡ some m → total_use_count id orders < m
  pub user_uses_left :
      (m : ℕ) → promo.max_uses_per_user ≡ some m → user_use_count id user_id orders < m

not_before : (now : ℕ) (o : Option ℕ) → ((t : ℕ) → o ≡ some t → t ≤ now) → is_before now o ≡ false
not_before now none h = refl
not_before now (some t) h = ground (arith, h t refl)

not_after : (now : ℕ) (o : Option ℕ) → ((t : ℕ) → o ≡ some t → now ≤ t) → is_after now o ≡ false
not_after now none h = refl
not_after now (some t) h = ground (arith, h t refl)

not_below : (s : ℤ) (o : Option ℤ) → ((m : ℤ) → o ≡ some m → m ≤ℤ s) → is_below s o ≡ false
not_below s none h = refl
not_below s (some m) h = ground (arith, h m refl)

not_exhausted :
    (o : Option ℕ) (used : ℕ) → ((m : ℕ) → o ≡ some m → used < m) → is_exhausted o used ≡ false
not_exhausted none used h = refl
not_exhausted (some m) used h = ground (arith, h m refl)

module _ (now s user_id id : ℕ) (promo : Promotion) (orders : Table Order) where
  accepted-IsEligible :
      is_rejected now (pos s) user_id id promo orders ≡ false
      → IsEligible now s user_id id promo orders
  unfolding is_rejected
  accepted-IsEligible h = record {
    active = ground arith;
    started = λ t e. ground arith;
    unended = λ t e. ground arith;
    reached = λ m e. ground arith;
    uses_left = λ m e. ground arith;
    user_uses_left = λ m e. ground arith;
  }

  IsEligible-accepted :
      IsEligible now s user_id id promo orders
      → is_rejected now (pos s) user_id id promo orders ≡ false
  unfolding is_rejected
  IsEligible-accepted e = ground (
    arith,
    e.active,
    not_before now promo.starts_at e.started,
    not_after now promo.ends_at e.unended,
    not_below (pos s) promo.min_subtotal_minor e.reached,
    not_exhausted promo.max_uses (total_use_count id orders) e.uses_left,
    not_exhausted promo.max_uses_per_user (user_use_count id user_id orders) e.user_uses_left,
  )

-- A code gives a discount exactly when the record that it stands for, in the cache or else in the table, meets every term: it is active, has started and not ended, the subtotal reaches its minimum, and uses are left, in all and for this customer. Its value being at least 0, and a percentage at most the whole, the discount is then at least 0 and at most the subtotal.
pub validate_sound :
    (cached : Option (ℕ × Promotion)) (now : ℕ) (code : Text) (s user_id id v : ℕ)
    (promo : Promotion) (db : Db)
    → promotion_record cached code db ≡ some (id, promo)
    → promo.value ≡ pos v
    → IsFair promo.type v
    → ((r : ValidatedPromotion)
        → validate cached now code (pos s) user_id db ≡ some r
        → IsEligible now s user_id id promo db.orders
          × (r.id ≡ id)
          × (pos 0 ≤ℤ r.discount_minor)
          × (r.discount_minor ≤ℤ pos s))
      × (IsEligible now s user_id id promo db.orders
          → validate cached now code (pos s) user_id db ≢ none)
unfolding validate
validate_sound cached now code s user_id id v promo db found value fair =
    let bounds = discount_for_bounds promo.type v s fair in
    elim (Bool-cases (is_rejected now (pos s) user_id id promo db.orders)) [
      | inl rejected ↦ (
        λ r e. absurd (ground arith),
        λ eligible.
            absurd (ground (arith, IsEligible-accepted now s user_id id promo db.orders eligible)),
      )
      | inr accepted ↦ (
        λ r e. (
          accepted-IsEligible now s user_id id promo db.orders accepted,
          ground arith,
          ground arith,
          ground arith,
        ),
        λ eligible. ground arith,
      )
    ]

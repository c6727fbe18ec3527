-- ===== src/Shared/Pricing/Laws.antt =====
-- What a price breakdown promises (packages/shared/src/pricing.ts).
use kartit.Prelude.{
  ℕ, ◌+◌, ◌*◌, ◌/◌, ◌≤◌, ◌<◌, ◌≡◌, Option, none, some, arith, ◌==◌, if◌then◌else◌, Bool-cases, inl,
  inr,
}
use kartit.Prelude.Int.{ℤ, pos, negsuc, ◌+ℤ◌, ◌*ℤ◌, ◌≤ℤ◌, int_laws}
use kartit.Shared.Text.{to_upper_case}
use kartit.Shared.Pricing.{
  PricingInput, CurrencyRule, rule_for, apply_rate, clamp_subtotal, clamp_discount, or_usd,
  shipping_for, calculate_pricing,
}

pub clamp_discount_bounds :
    (d : Option ℤ) (s : ℤ) → pos 0 ≤ℤ s → (pos 0 ≤ℤ clamp_discount d s) × (clamp_discount d s ≤ℤ s)
unfolding clamp_discount
clamp_discount_bounds none s h = (omega arith, omega arith)
clamp_discount_bounds (some d) s h = ground arith

pub apply_rate_pos :
    (n r : ℕ) → apply_rate (pos n) r ≡ pos (if r == 0 then 0 else (n * r + 500000) / 1000000)
unfolding apply_rate ◌*ℤ◌ ◌+ℤ◌
apply_rate_pos n r = ground arith

apply_rate_nonneg : (a : ℤ) (r : ℕ) → pos 0 ≤ℤ a → pos 0 ≤ℤ apply_rate a r
apply_rate_nonneg (pos n) r h = rw (apply_rate_pos n r) (omega arith)
apply_rate_nonneg (negsuc n) r h = absurd (omega arith)

shipping_for_nonneg : (rule : CurrencyRule) (s : ℤ) → pos 0 ≤ℤ shipping_for rule s
unfolding shipping_for
shipping_for_nonneg rule s = ground arith

clamp_subtotal_nonneg : (s : ℤ) → pos 0 ≤ℤ clamp_subtotal s
clamp_subtotal_nonneg s = ground arith

-- For every input: the discount lies between 0 and the subtotal, shipping and tax are at least 0, and the total is the subtotal less the discount, plus shipping and tax.
pub calculate_pricing_adds_up :
    (input : PricingInput)
    → let b = calculate_pricing input in
      (pos 0 ≤ℤ b.discount)
      × (b.discount ≤ℤ b.subtotal)
      × (pos 0 ≤ℤ b.shipping)
      × (pos 0 ≤ℤ b.tax)
      × (b.total +ℤ b.discount ≡ b.subtotal +ℤ b.shipping +ℤ b.tax)
unfolding calculate_pricing
calculate_pricing_adds_up input =
    let s = clamp_subtotal input.subtotal in
    let rule = rule_for (to_upper_case (or_usd input.currency)) in
    let d = clamp_discount_bounds input.discount_minor s (clamp_subtotal_nonneg input.subtotal) in
    (
      d.0,
      d.1,
      shipping_for_nonneg rule s,
      apply_rate_nonneg _ rule.tax_rate (omega int_laws),
      omega int_laws,
    )

-- The tax on an amount is its product with the rate rounded to the nearest minor unit, upwards at a half: no other whole number lies in the interval.
pub apply_rate_nearest :
    (n r : ℕ)
    → (t : ℕ) × (apply_rate (pos n) r ≡ pos t)
      × (1000000 * t ≤ n * r + 500000)
      × (n * r + 500000 < 1000000 * t + 1000000)
apply_rate_nearest n r = elim (Bool-cases (r == 0)) [
  | inl e ↦ (0, rw (apply_rate_pos n r, e), omega arith, ground arith)
  | inr e ↦ ((n * r + 500000) / 1000000, rw (apply_rate_pos n r, e), omega arith, omega arith)
]

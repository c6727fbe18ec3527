-- ===== src/Shared/Pricing.antt =====
-- packages/shared/src/pricing.ts: tax and shipping, for the cart's summary and for orders. Amounts are
-- BigInts, so ℤ. A tax rate is held as the whole number of millionths that `Math.round(rate * 1e6)`
-- makes of it. The three notes hold the amounts that their texts show.
pub mod Laws
pub mod Tests
use kartit.Prelude.{
  ℕ, ◌+◌, ◌*◌, ◌/◌, Bool, true, ◌&&◌, Option, none, some, [], ◌==◌, if◌then◌else◌, ltb,
}
use kartit.Prelude.Int.{ℤ, pos, negsuc, sub_ℕ, ◌+ℤ◌, ◌-ℤ◌, ◌*ℤ◌, ltb_ℤ, leb_ℤ, eqb_ℤ}
use kartit.Shared.Text.{Text, codes, text_eq, to_upper_case}

pub record PricingInput : Type 0 where
  pub subtotal : ℤ
  pub currency : Text
  pub discount_minor : Option ℤ

pub data ShippingNote : Type 0 where
  no_note free_shipping_note : ShippingNote
  free_over : (threshold_major : ℕ) (remaining_minor : ℤ) → ShippingNote

pub record PricingBreakdown : Type 0 where
  pub subtotal : ℤ
  pub discount : ℤ
  pub shipping : ℤ
  pub tax : ℤ
  pub total : ℤ
  pub currency : Text
  pub shipping_note : ShippingNote
  pub tax_note : Option ℕ
  pub discount_note : Option ℤ

pub record CurrencyRule : Type 0 where
  pub shipping_flat : ℕ
  pub free_shipping_over : ℕ
  pub free_shipping_over_major : ℕ
  -- in millionths
  pub tax_rate : ℕ

abbrev pub inr_rule : CurrencyRule
inr_rule = record {
  shipping_flat = 4900;
  free_shipping_over = 49900;
  free_shipping_over_major = 499;
  tax_rate = 180000;
}

-- USD and EUR.
abbrev pub usd_rule : CurrencyRule
usd_rule = record {
  shipping_flat = 500;
  free_shipping_over = 5000;
  free_shipping_over_major = 50;
  tax_rate = 0;
}

abbrev pub default_rule : CurrencyRule
default_rule = record {
  shipping_flat = 0;
  free_shipping_over = 0;
  free_shipping_over_major = 0;
  tax_rate = 0;
}

-- `RULES[currency] ?? DEFAULT_RULE`
unfoldable pub rule_for : Text → CurrencyRule
rule_for currency =
    if text_eq currency (codes "INR")
    then inr_rule
    else if text_eq currency (codes "USD")
    then usd_rule
    else if text_eq currency (codes "EUR")
    then usd_rule
    else default_rule

-- BigInt division drops the fraction, towards 0.
abbrev pub div_trunc : ℤ → ℕ → ℤ
div_trunc (pos n) d = pos (n / d)
div_trunc (negsuc n) d = sub_ℕ 0 ((n + 1) / d)

unfoldable pub apply_rate : ℤ → ℕ → ℤ
apply_rate amount_minor rate =
    if rate == 0 then pos 0 else div_trunc (amount_minor *ℤ pos rate +ℤ pos 500000) 1000000

-- `input.subtotal < 0n ? 0n : input.subtotal`
abbrev pub clamp_subtotal : ℤ → ℤ
clamp_subtotal s = if ltb_ℤ s (pos 0) then pos 0 else s

-- `input.currency || "USD"`
abbrev pub or_usd : Text → Text
or_usd [] = codes "USD"
or_usd currency = currency

unfoldable pub clamp_discount : Option ℤ → ℤ → ℤ
clamp_discount none subtotal = pos 0
clamp_discount (some d) subtotal =
    if ltb_ℤ (pos 0) d then if ltb_ℤ subtotal d then subtotal else d else pos 0

abbrev pub is_free_shipping : CurrencyRule → ℤ → Bool
is_free_shipping rule subtotal =
    ltb 0 rule.free_shipping_over && leb_ℤ (pos rule.free_shipping_over) subtotal

unfoldable pub shipping_for : CurrencyRule → ℤ → ℤ
shipping_for rule subtotal =
    if eqb_ℤ subtotal (pos 0)
    then pos 0
    else if is_free_shipping rule subtotal
    then pos 0
    else pos rule.shipping_flat

unfoldable pub shipping_note_for : CurrencyRule → ℤ → ShippingNote
shipping_note_for rule subtotal =
    if eqb_ℤ subtotal (pos 0)
    then no_note
    else if is_free_shipping rule subtotal
    then free_shipping_note
    else if ltb 0 rule.free_shipping_over
    then free_over rule.free_shipping_over_major (pos rule.free_shipping_over -ℤ subtotal)
    else no_note

unfoldable pub calculate_pricing : PricingInput → PricingBreakdown
calculate_pricing input =
    let subtotal = clamp_subtotal input.subtotal in
    let currency = to_upper_case (or_usd input.currency) in
    let rule = rule_for currency in
    let discount = clamp_discount input.discount_minor subtotal in
    let taxable = subtotal -ℤ discount in
    let shipping = shipping_for rule subtotal in
    let tax = apply_rate taxable rule.tax_rate in
    record {
      subtotal = subtotal;
      discount = discount;
      shipping = shipping;
      tax = tax;
      total = taxable +ℤ shipping +ℤ tax;
      currency = currency;
      shipping_note = shipping_note_for rule subtotal;
      tax_note = if ltb 0 rule.tax_rate then some (rule.tax_rate / 10000) else none;
      discount_note = if ltb_ℤ (pos 0) discount then some discount else none;
    }

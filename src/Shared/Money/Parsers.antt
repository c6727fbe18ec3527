-- ===== src/Shared/Money/Parsers.antt =====
-- The two readers of packages/shared/src/money.ts agree where both accept.
use kartit.Prelude.{
  ℕ, zero, suc, ◌≡◌, refl, ap, sym, ◌∙◌, true, false, some, [], ◌∷◌, inl, inr, arith, ◌==◌,
  if◌then◌else◌, Bool-cases, some_inj, none≢some,
}
use kartit.Prelude.Int.{pos}
use kartit.Shared.Text.{Text}
use kartit.Shared.Decimal.{to_text, scan, all_digits, big_int, trim, split, big_int-to_text}
use kartit.Shared.Money.{
  by_currency, decimals_for, major_to_minor, parse_money, is_price, is_signed_price, joined,
  whole_of, frac_of, starts_with_minus, without_minus,
}
use kartit.Shared.Money.Texts.{
  is_plain, all_digits-plain, is_plain-decimal, split-digits, split-decimal, without_commas-plain,
  IsPriceText, integral, decimal, is_price-IsPriceText,
}

IsPriceText-is_plain : {s : Text} → IsPriceText s → is_plain s ≡ true
IsPriceText-is_plain (integral w h) = all_digits-plain w h
IsPriceText-is_plain (decimal w f hw hf) = is_plain-decimal w f hw hf

whole-digits : {s : Text} → IsPriceText s → all_digits (whole_of (split b'.' s)) ≡ true
whole-digits (integral w h) = rw (split-digits w h) h
whole-digits (decimal w f hw hf) = rw (split-decimal w f hw hf) hw

without_minus-digits : (w : Text) → all_digits w ≡ true → without_minus w ≡ w
unfolding all_digits
without_minus-digits [] h = refl
without_minus-digits (c ∷ w) h = ground (arith, without_minus-digits w)

digits-unsigned : (w : Text) → all_digits w ≡ true → starts_with_minus w ≡ false
unfolding all_digits
digits-unsigned [] h = refl
digits-unsigned (c ∷ w) h = ground arith

is_price-signed : (s : Text) → is_price s ≡ true → is_signed_price s ≡ true
unfolding is_price
is_price-signed [] h = cc
is_price-signed (c ∷ s) h = ground arith

parse_money-price :
    (s currency : Text)
    → is_price (trim s) ≡ true
    → parse_money s currency
      ≡ some (
          pos (
            joined
              (whole_of (split b'.' (trim s)))
              (frac_of (split b'.' (trim s)))
              (decimals_for currency)))
unfolding parse_money
parse_money-price s currency e =
    let shape = is_price-IsPriceText (trim s) e in
    let digits = whole-digits shape in
    rw
      (
        without_commas-plain (trim s) (IsPriceText-is_plain shape),
        is_price-signed (trim s) e,
        digits-unsigned _ digits,
        without_minus-digits _ digits,
      )
      refl

joined-none : (w f : Text) → joined w f 0 ≡ big_int w
unfolding scan
joined-none w f = omega arith

answer_of :
    (w f t : Text) (d : ℕ)
    → some (if d == 0 then w else to_text (joined w f d)) ≡ some t
    → joined w f d ≡ big_int t
answer_of w f t zero h = joined-none w f ∙ ap big_int (some_inj h)
answer_of w f t (suc d) h = sym (big_int-to_text (joined w f (suc d))) ∙ ap big_int shown
  where
    not_zero : (suc d == 0) ≡ false
    not_zero = ground arith

    shown : to_text (joined w f (suc d)) ≡ t
    shown = some_inj (rw not_zero at h)

-- Where `majorToMinor` reads a text in a currency, `parseMoney` reads the same text as the amount that the
-- digits of that answer write.
pub parse_money-major_to_minor :
    (s currency t : Text)
    → major_to_minor s (by_currency currency) ≡ some t
    → parse_money s currency ≡ some (pos (big_int t))
unfolding major_to_minor
parse_money-major_to_minor s currency t h = elim (Bool-cases (is_price (trim s))) [
  | inr e ↦ absurd (none≢some (rw e at h))
  | inl e ↦
      parse_money-price s currency e
      ∙ ap (λ n. some (pos n)) (answer_of _ _ t (decimals_for currency) (rw e at h))
]

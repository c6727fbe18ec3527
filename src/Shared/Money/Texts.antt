-- ===== src/Shared/Money/Texts.antt =====
-- The texts that the patterns of packages/shared/src/money.ts accept: digits, or digits on both sides of a point.
use kartit.Prelude.{
  ℕ, ◌≡◌, refl, ap, ◌∙◌, Bool, true, false, ◌&&◌, ◌||◌, [], ◌∷◌, ◌++◌, inl, inr, arith, ◌==◌,
  Bool-cases,
}
use kartit.Shared.Text.{Text, is_digit}
use kartit.Shared.Decimal.{all_digits, is_nil, trim, trim_start, trim_end, split}
use kartit.Shared.Money.{is_price, is_price_tail, without_commas}

unfoldable pub is_plain : Text → Bool
is_plain [] = true
is_plain (c ∷ s) = (is_digit c || (c == b'.')) && is_plain s

trim_start-plain : (s : Text) → is_plain s ≡ true → trim_start s ≡ s
unfolding trim_start is_plain
trim_start-plain [] h = refl
trim_start-plain (c ∷ s) h = ground arith

trim_end-plain : (s : Text) → is_plain s ≡ true → trim_end s ≡ s
unfolding trim_end is_plain
trim_end-plain [] h = refl
trim_end-plain (c ∷ s) h = ground (arith, trim_end-plain s)

pub trim-plain : (s : Text) → is_plain s ≡ true → trim s ≡ s
trim-plain s h = ap trim_end (trim_start-plain s h) ∙ trim_end-plain s h

pub without_commas-plain : (s : Text) → is_plain s ≡ true → without_commas s ≡ s
unfolding without_commas is_plain
without_commas-plain [] h = refl
without_commas-plain (c ∷ s) h = ground (arith, without_commas-plain s)

pub all_digits-plain : (s : Text) → all_digits s ≡ true → is_plain s ≡ true
unfolding all_digits is_plain
all_digits-plain [] h = refl
all_digits-plain (c ∷ s) h = ground (arith, all_digits-plain s)

pub is_plain-decimal :
    (w f : Text) → all_digits w ≡ true → all_digits f ≡ true → is_plain (w ++ (b'.' ∷ f)) ≡ true
unfolding all_digits is_plain
is_plain-decimal [] f hw hf = ground (arith, all_digits-plain f hf)
is_plain-decimal (c ∷ w) f hw hf = ground (arith, is_plain-decimal w f)

pub split-digits : (w : Text) → all_digits w ≡ true → split b'.' w ≡ w ∷ []
unfolding all_digits split
split-digits [] h = refl
split-digits (c ∷ w) h = ground (arith, split-digits w)

pub split-decimal :
    (w f : Text)
    → all_digits w ≡ true
    → all_digits f ≡ true
    → split b'.' (w ++ (b'.' ∷ f)) ≡ w ∷ f ∷ []
unfolding all_digits split
split-decimal [] f hw hf = ground (arith, split-digits f hf)
split-decimal (c ∷ w) f hw hf = ground (arith, split-decimal w f)

is_price_tail-digits : (s : Text) → all_digits s ≡ true → is_price_tail s ≡ true
unfolding all_digits
is_price_tail-digits [] h = refl
is_price_tail-digits (c ∷ s) h = ground (arith, is_price_tail-digits s)

pub is_price-digits : (s : Text) → all_digits s ≡ true → is_nil s ≡ false → is_price s ≡ true
unfolding all_digits is_price
is_price-digits [] h n = cc
is_price-digits (c ∷ s) h n = ground (arith, is_price_tail-digits s)

is_price_tail-decimal :
    (w f : Text)
    → all_digits w ≡ true
    → all_digits f ≡ true
    → is_nil f ≡ false
    → is_price_tail (w ++ (b'.' ∷ f)) ≡ true
unfolding all_digits
is_price_tail-decimal [] f hw hf n = ground arith
is_price_tail-decimal (c ∷ w) f hw hf n = ground (arith, is_price_tail-decimal w f)

pub is_price-decimal :
    (w f : Text)
    → all_digits w ≡ true
    → is_nil w ≡ false
    → all_digits f ≡ true
    → is_nil f ≡ false
    → is_price (w ++ (b'.' ∷ f)) ≡ true
unfolding all_digits is_price
is_price-decimal [] f hw nw hf nf = cc
is_price-decimal (c ∷ w) f hw nw hf nf = ground (arith, is_price_tail-decimal w f)

-- The whole part, and the fraction of a text that has one.
pub data IsPriceText : Text → Type 0 where
  integral : (w : Text) → all_digits w ≡ true → IsPriceText w
  decimal : (w f : Text) → all_digits w ≡ true → all_digits f ≡ true → IsPriceText (w ++ (b'.' ∷ f))

onto : (c : ℕ) (s : Text) → is_digit c ≡ true → IsPriceText s → IsPriceText (c ∷ s)
unfolding all_digits
onto c s d (integral w h) = integral (c ∷ w) (ground arith)
onto c s d (decimal w f hw hf) = decimal (c ∷ w) f (ground arith) hf

is_price_tail-IsPriceText : (s : Text) → is_price_tail s ≡ true → IsPriceText s
unfolding all_digits
is_price_tail-IsPriceText [] h = integral [] refl
is_price_tail-IsPriceText (c ∷ s) h = elim (Bool-cases (is_digit c)) [
  | inl d ↦ onto c s d (is_price_tail-IsPriceText s (ground arith))
  | inr d ↦ let point : c ≡ b'.' = ground arith in rw point (decimal [] s refl (ground arith))
]

pub is_price-IsPriceText : (s : Text) → is_price s ≡ true → IsPriceText s
unfolding is_price
is_price-IsPriceText [] h = cc
is_price-IsPriceText (c ∷ s) h =
    onto c s (ground arith) (is_price_tail-IsPriceText s (ground arith))

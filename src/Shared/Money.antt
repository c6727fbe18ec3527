-- ===== src/Shared/Money.antt =====
-- packages/shared/src/money.ts: amounts in minor units and their texts in major units. The overloads take the
-- currency or the number of decimals; a thrown error is `none`. `formatMoney`, which the runtime's number
-- formats write, is left out.
mod Texts
pub mod RoundTrip
pub mod Parsers
pub mod Tests
use kartit.Prelude.{
  ℕ, zero, suc, ◌+◌, ◌*◌, ◌/◌, ◌%◌, ◌^◌, Bool, true, false, not, ◌&&◌, Option, none, some, List, [],
  ◌∷◌, ◌++◌, any, take, ◌==◌, if◌then◌else◌,
}
use kartit.Prelude.Int.{ℤ, pos, negsuc}
use kartit.Shared.Text.{Text, codes, text_eq, is_digit, to_upper_case}
use kartit.Shared.Decimal.{to_text, all_digits, big_int, replicate, pad_start, is_nil, trim, split}

abbrev pub zero_decimal_currencies : List Text
zero_decimal_currencies =
    codes "BIF"
    ∷ codes "CLP"
    ∷ codes "DJF"
    ∷ codes "GNF"
    ∷ codes "JPY"
    ∷ codes "KMF"
    ∷ codes "KRW"
    ∷ codes "MGA"
    ∷ codes "PYG"
    ∷ codes "RWF"
    ∷ codes "UGX"
    ∷ codes "VND"
    ∷ codes "VUV"
    ∷ codes "XAF"
    ∷ codes "XOF"
    ∷ codes "XPF"
    ∷ []

unfoldable pub decimals_for : Text → ℕ
decimals_for currency =
    if any (text_eq (to_upper_case currency)) zero_decimal_currencies then 0 else 2

-- The second argument of the two conversions.
pub data Scale : Type 0 where
  by_currency : Text → Scale
  by_decimals : ℕ → Scale

abbrev pub decimals_of : Scale → ℕ
decimals_of (by_currency currency) = decimals_for currency
decimals_of (by_decimals decimals) = decimals

-- `-n`
abbrev pub minus : ℕ → ℤ
minus zero = pos 0
minus (suc n) = negsuc n

-- `/` and `%` of BigInts, whose quotient is rounded towards 0 and whose remainder has the dividend's sign.
abbrev pub quotient : ℤ → ℕ → ℤ
quotient (pos n) k = pos (n / k)
quotient (negsuc n) k = minus (suc n / k)

abbrev pub remainder : ℤ → ℕ → ℤ
remainder (pos n) k = pos (n % k)
remainder (negsuc n) k = minus (suc n % k)

-- `toString` of a BigInt
abbrev pub to_string : ℤ → Text
to_string (pos n) = to_text n
to_string (negsuc n) = b'-' ∷ to_text (suc n)

unfoldable pub minor_to_major : ℤ → Scale → Text
minor_to_major m arg =
    let decimals = decimals_of arg in
    let factor = 10 ^ decimals in
    if decimals == 0
    then to_string m
    else to_string (quotient m factor)
      ++ (b'.' ∷ pad_start decimals b'0' (to_string (remainder m factor)))

-- `^\d+(\.\d+)?$`
abbrev pub is_price_tail : Text → Bool
is_price_tail [] = true
is_price_tail (c ∷ s) =
    let rest = is_price_tail s in
    if is_digit c then rest else (c == b'.') && (not (is_nil s) && all_digits s)

unfoldable pub is_price : Text → Bool
is_price [] = false
is_price (c ∷ s) = is_digit c && is_price_tail s

-- `const [whole, frac = ""] = parts`
abbrev pub whole_of : List Text → Text
whole_of [] = []
whole_of (whole ∷ parts) = whole

abbrev pub frac_of : List Text → Text
frac_of (whole ∷ frac ∷ parts) = frac
frac_of _ = []

abbrev pub or_zero : Text → Text
or_zero [] = codes "0"
or_zero (c ∷ s) = c ∷ s

-- `(frac + "0".repeat(decimals)).slice(0, decimals)`
abbrev pub frac_padded : ℕ → Text → Text
frac_padded decimals frac = take decimals (frac ++ replicate decimals b'0')

abbrev pub joined : Text → Text → ℕ → ℕ
joined whole frac decimals =
    big_int whole * 10 ^ decimals + big_int (or_zero (frac_padded decimals frac))

unfoldable pub major_to_minor : Text → Scale → Option Text
major_to_minor major arg =
    let decimals = decimals_of arg in
    let trimmed = trim major in
    let parts = split b'.' trimmed in
    if is_price trimmed
    then some (
        if decimals == 0
        then whole_of parts
        else to_text (joined (whole_of parts) (frac_of parts) decimals))
    else none

-- `replace(/,/g, "")`
unfoldable pub without_commas : Text → Text
without_commas [] = []
without_commas (c ∷ s) = let rest = without_commas s in if c == b',' then rest else c ∷ rest

abbrev pub starts_with_minus : Text → Bool
starts_with_minus [] = false
starts_with_minus (c ∷ s) = c == b'-'

-- `replace("-", "")`, which takes the first one away.
abbrev pub without_minus : Text → Text
without_minus [] = []
without_minus (c ∷ s) = let rest = without_minus s in if c == b'-' then s else c ∷ rest

-- `^-?\d+(\.\d+)?$`
abbrev pub is_signed_price : Text → Bool
is_signed_price [] = false
is_signed_price (c ∷ s) = if c == b'-' then is_price s else is_price (c ∷ s)

abbrev pub signed : Bool → ℕ → ℤ
signed true n = minus n
signed false n = pos n

unfoldable pub parse_money : Text → Text → Option ℤ
parse_money input currency =
    let trimmed = without_commas (trim input) in
    let decimals = decimals_for currency in
    let parts = split b'.' trimmed in
    let whole = whole_of parts in
    if is_signed_price trimmed
    then some
        (signed (starts_with_minus whole) (joined (without_minus whole) (frac_of parts) decimals))
    else none

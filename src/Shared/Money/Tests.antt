-- ===== src/Shared/Money/Tests.antt =====
-- packages/shared/src/money.ts on concrete texts.
use kartit.Prelude.{◌≡◌, refl, some, none}
use kartit.Prelude.Int.{pos, negsuc}
use kartit.Shared.Text.{codes}
use kartit.Shared.Decimal.{
  emit_digits, to_text, scan, all_digits, replicate, pad_start, trim_start, trim_end, split,
  big_int,
}
use kartit.Shared.Money.{
  decimals_for, by_currency, by_decimals, minor_to_major, major_to_minor, is_price, without_commas,
  parse_money,
}
use kartit.Shared.Money.RoundTrip.{major_to_minor-minor_to_major}
use kartit.Shared.Money.Parsers.{parse_money-major_to_minor}
use kartit.Shared.Text.{to_upper_case}

usd_text : minor_to_major (pos 1905) (by_currency (codes "usd")) ≡ codes "19.05"
unfolding minor_to_major decimals_for to_upper_case emit_digits to_text replicate pad_start
usd_text = refl

jpy_text : minor_to_major (pos 1905) (by_currency (codes "JPY")) ≡ codes "1905"
unfolding minor_to_major decimals_for to_upper_case emit_digits to_text
jpy_text = refl

-- An amount below zero keeps its sign on the remainder, and the text is not a price.
negative_text : minor_to_major (negsuc 4) (by_decimals 2) ≡ codes "0.-5"
unfolding minor_to_major emit_digits to_text replicate pad_start
negative_text = refl

negative_refused : major_to_minor (codes "0.-5") (by_decimals 2) ≡ none
unfolding major_to_minor trim_start trim_end split is_price scan replicate all_digits
negative_refused = refl

short_fraction : major_to_minor (codes " 7.5 ") (by_decimals 2) ≡ some (codes "750")
unfolding major_to_minor trim_start trim_end split is_price scan replicate all_digits to_text
    emit_digits
short_fraction = refl

parsed : parse_money (codes "-1,234.5") (codes "EUR") ≡ some (negsuc 123449)
unfolding parse_money without_commas trim_start trim_end split is_price scan replicate all_digits
    decimals_for to_upper_case
parsed = refl

major_to_minor-minor_to_major_example :
    major_to_minor
      (minor_to_major (pos 1905) (by_currency (codes "USD")))
      (by_currency (codes "USD"))
    ≡ some (to_text 1905)
major_to_minor-minor_to_major_example =
    major_to_minor-minor_to_major 1905 (by_currency (codes "USD"))

read_price : major_to_minor (codes "19.05") (by_currency (codes "USD")) ≡ some (codes "1905")
unfolding major_to_minor trim_start trim_end split is_price scan replicate all_digits to_text
    emit_digits decimals_for to_upper_case
read_price = refl

parse_money-major_to_minor_example :
    parse_money (codes "19.05") (codes "USD") ≡ some (pos (big_int (codes "1905")))
parse_money-major_to_minor_example =
    parse_money-major_to_minor (codes "19.05") (codes "USD") (codes "1905") read_price

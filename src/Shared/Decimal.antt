-- ===== src/Shared/Decimal.antt =====
-- The texts of numbers in base ten: `toString` of a number that is not negative, `BigInt` and `Number` of a
-- text of digits, `padStart`, `trim` and `split` of JavaScript, on lists of character codes. `Number` of a text
-- with any other character is taken as not a number.
use kartit.Prelude.{
  ℕ, zero, suc, ◌+◌, ◌-◌, ◌*◌, ◌/◌, ◌%◌, ◌<◌, ◌≡◌, refl, ap, ◌∙◌, Bool, true, false, ◌&&◌, ◌||◌,
  Option, none, some, List, [], ◌∷◌, ◌++◌, length, arith, ltb, leb, ◌==◌, if◌then◌else◌, Bool-cases,
  inl, inr,
}
use kartit.Shared.Text.{Text, is_digit}

-- One round a digit, the last digit first; a number has no more digits than one above itself.
unfoldable pub emit_digits : ℕ → ℕ → Text → Text
emit_digits zero n out = out
emit_digits (suc fuel) n out = elim (ltb n 10) [
  | true ↦ (b'0' + n) ∷ out
  | false ↦ emit_digits fuel (n / 10) ((b'0' + n % 10) ∷ out)
]

unfoldable pub to_text : ℕ → Text
to_text n = emit_digits (suc n) n []

unfoldable pub scan : ℕ → Text → ℕ
scan acc [] = acc
scan acc (c ∷ s) = scan (acc * 10 + (c - b'0')) s

unfoldable pub all_digits : Text → Bool
all_digits [] = true
all_digits (c ∷ s) = is_digit c && all_digits s

-- `BigInt(s)`, where `s` is a text of digits.
abbrev pub big_int : Text → ℕ
big_int s = scan 0 s

-- `Number(s)`
abbrev pub number : Text → Option ℕ
number s = if all_digits s then some (scan 0 s) else none

unfoldable pub replicate : ℕ → ℕ → Text
replicate zero c = []
replicate (suc n) c = c ∷ replicate n c

unfoldable pub pad_start : ℕ → ℕ → Text → Text
pad_start width c s = replicate (width - length s) c ++ s

-- The white space of ASCII.
abbrev pub is_space : ℕ → Bool
is_space c = (c == 32) || (leb 9 c && leb c 13)

unfoldable pub trim_start : Text → Text
trim_start [] = []
trim_start (c ∷ s) = let rest = trim_start s in if is_space c then rest else c ∷ s

abbrev pub is_nil : Text → Bool
is_nil [] = true
is_nil (c ∷ s) = false

unfoldable pub trim_end : Text → Text
trim_end [] = []
trim_end (c ∷ s) = let rest = trim_end s in if is_space c && is_nil rest then [] else c ∷ rest

abbrev pub trim : Text → Text
trim s = trim_end (trim_start s)

abbrev pub onto_first : ℕ → List Text → List Text
onto_first c [] = (c ∷ []) ∷ []
onto_first c (s ∷ parts) = (c ∷ s) ∷ parts

unfoldable pub split : ℕ → Text → List Text
split mark [] = [] ∷ []
split mark (c ∷ s) =
    let parts = split mark s in if c == mark then [] ∷ parts else onto_first c parts

emit_digits-scan :
    (fuel n : ℕ) (out : Text) → n < fuel → scan 0 (emit_digits fuel n out) ≡ scan n out
unfolding emit_digits scan
emit_digits-scan zero n out h = absurd (omega arith)
emit_digits-scan (suc fuel) n out h = elim (Bool-cases (ltb n 10)) [
  | inl e ↦ rw (e, emit_digits) (ap (λ m. scan m out) (omega arith))
  | inr e ↦
      rw (e, emit_digits)
        (emit_digits-scan fuel (n / 10) ((b'0' + n % 10) ∷ out) (ground arith)
          ∙ ap (λ m. scan m out) (omega arith))
]

pub big_int-to_text : (n : ℕ) → big_int (to_text n) ≡ n
unfolding to_text scan
big_int-to_text n = emit_digits-scan (suc n) n [] (omega arith)

emit_digits-digits :
    (fuel n : ℕ) (out : Text)
    → n < fuel
    → all_digits out ≡ true
    → (all_digits (emit_digits fuel n out) ≡ true) × (is_nil (emit_digits fuel n out) ≡ false)
unfolding emit_digits all_digits
emit_digits-digits zero n out h d = absurd (omega arith)
emit_digits-digits (suc fuel) n out h d = elim (Bool-cases (ltb n 10)) [
  | inl e ↦ rw (e, emit_digits) (ground arith, refl)
  | inr e ↦
      rw (e, emit_digits)
        (emit_digits-digits fuel (n / 10) ((b'0' + n % 10) ∷ out) (ground arith) (ground arith))
]

pub to_text-digits : (n : ℕ) → (all_digits (to_text n) ≡ true) × (is_nil (to_text n) ≡ false)
unfolding to_text all_digits
to_text-digits n = emit_digits-digits (suc n) n [] (omega arith) refl

pub number-to_text : (n : ℕ) → number (to_text n) ≡ some n
number-to_text n = rw (to_text-digits n).0 (ap some (big_int-to_text n))

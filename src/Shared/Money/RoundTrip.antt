-- ===== src/Shared/Money/RoundTrip.antt =====
-- The text that `minorToMajor` makes, read again by `majorToMinor` (packages/shared/src/money.ts).
use native.Mathlib.Nat.{div-add-mod', mod-lt}
use kartit.Prelude.{
  ℕ, zero, suc, ◌+◌, ◌-◌, ◌*◌, ◌/◌, ◌%◌, ◌^◌, ◌≤◌, ◌<◌, ◌≡◌, refl, ap, ◌∙◌, subst, true, false,
  some, [], ◌∷◌, ◌++◌, inl, inr, length, take, arith, ltb, ◌==◌, Bool-cases,
}
use kartit.Prelude.Int.{pos}
use kartit.Shared.Text.{Text}
use kartit.Shared.Decimal.{
  emit_digits, to_text, scan, all_digits, is_nil, big_int, replicate, pad_start, big_int-to_text,
  to_text-digits,
}
use kartit.Shared.Money.{Scale, decimals_of, minor_to_major, major_to_minor, or_zero, frac_padded}
use kartit.Shared.Money.Texts.{
  trim-plain, all_digits-plain, is_plain-decimal, split-digits, split-decimal, is_price-digits,
  is_price-decimal,
}

pow_pos : (k : ℕ) → 0 < 10 ^ k
pow_pos zero = omega arith
pow_pos (suc k) = omega (arith, pow_pos k)

length-emit_digits :
    (fuel k n : ℕ) (out : Text)
    → n < fuel
    → n < 10 ^ suc k
    → length (emit_digits fuel n out) ≤ suc k + length out
unfolding emit_digits
length-emit_digits zero k n out h small = absurd (omega arith)
length-emit_digits (suc fuel) k n out h small = elim (Bool-cases (ltb n 10)) [
  | inl e ↦ rw (e, emit_digits) (omega arith)
  | inr e ↦
      rw (e, emit_digits)
        (shorter k small (ground arith)
          λ j. length-emit_digits fuel j (n / 10) ((b'0' + n % 10) ∷ out) (ground arith))
]
  where
    shorter :
        (k : ℕ)
        → n < 10 ^ suc k
        → 10 ≤ n
        → ((j : ℕ)
            → n / 10 < 10 ^ suc j
            → length (emit_digits fuel (n / 10) ((b'0' + n % 10) ∷ out)) ≤ suc j + suc (length out))
        → length (emit_digits fuel (n / 10) ((b'0' + n % 10) ∷ out)) ≤ suc k + length out
    shorter zero small big ih = absurd (omega arith)
    shorter (suc k) small big ih = omega (arith, ih k (omega arith))

length-to_text : (k n : ℕ) → n < 10 ^ suc k → length (to_text n) ≤ suc k
unfolding to_text
length-to_text k n small = omega (arith, length-emit_digits (suc n) k n [] (omega arith) small)

length-zeros : (n : ℕ) (s : Text) → length (replicate n b'0' ++ s) ≡ n + length s
unfolding replicate
length-zeros zero s = omega arith
length-zeros (suc n) s = omega (arith, length-zeros n s)

length-pad_start : (d : ℕ) (s : Text) → length s ≤ d → length (pad_start d b'0' s) ≡ d
unfolding pad_start
length-pad_start d s h = omega (arith, length-zeros (d - length s) s)

zeros-digits : (n : ℕ) (s : Text) → all_digits s ≡ true → all_digits (replicate n b'0' ++ s) ≡ true
unfolding all_digits replicate
zeros-digits zero s h = h
zeros-digits (suc n) s h = zeros-digits n s h

scan-zeros : (n : ℕ) (s : Text) → scan 0 (replicate n b'0' ++ s) ≡ scan 0 s
unfolding scan replicate
scan-zeros zero s = refl
scan-zeros (suc n) s = scan-zeros n s

take-length : (s t : Text) → take (length s) (s ++ t) ≡ s
take-length [] t = refl
take-length (c ∷ s) t = ap (◌∷◌ c) (take-length s t)

-- The digits after the point, and what reading them gives.
record IsFraction (d r : ℕ) (f : Text) : Type 0 where
  digits : all_digits f ≡ true
  filled : is_nil f ≡ false
  exact : frac_padded d f ≡ f
  value : big_int (or_zero f) ≡ r

or_zero-filled : (f : Text) → is_nil f ≡ false → or_zero f ≡ f
or_zero-filled [] h = cc
or_zero-filled (c ∷ f) h = refl

filled_of_length : (d : ℕ) (f : Text) → length f ≡ suc d → is_nil f ≡ false
filled_of_length d [] h = absurd (omega arith)
filled_of_length d (c ∷ f) h = refl

pad_start-IsFraction :
    (d r : ℕ) → r < 10 ^ suc d → IsFraction (suc d) r (pad_start (suc d) b'0' (to_text r))
unfolding pad_start
pad_start-IsFraction d r small =
    let shown = to_text r in
    let f = pad_start (suc d) b'0' shown in
    let size : length f ≡ suc d = length-pad_start (suc d) shown (length-to_text d r small) in
    let filled = filled_of_length d f size in
    record {
      digits = zeros-digits (suc d - length shown) shown (to_text-digits r).0;
      filled = filled;
      exact =
          subst (λ k. take k (f ++ replicate (suc d) b'0') ≡ f) size
            (take-length f (replicate (suc d) b'0'));
      value =
          ap (scan 0) (or_zero-filled f filled)
          ∙ scan-zeros (suc d - length shown) shown
          ∙ big_int-to_text r;
    }

suc_not_zero : (d : ℕ) → (suc d == 0) ≡ false
suc_not_zero d = ground arith

read_integral :
    (n : ℕ) (arg : Scale) → decimals_of arg ≡ 0 → major_to_minor (to_text n) arg ≡ some (to_text n)
unfolding major_to_minor
read_integral n arg none_after =
    let (digits, filled) = to_text-digits n in
    rw
      (
        trim-plain (to_text n) (all_digits-plain _ digits),
        is_price-digits (to_text n) digits filled,
        split-digits (to_text n) digits,
        none_after,
      )
      refl

read_decimal :
    (n d r : ℕ) (f : Text) (arg : Scale)
    → decimals_of arg ≡ suc d
    → IsFraction (suc d) r f
    → major_to_minor (to_text n ++ (b'.' ∷ f)) arg ≡ some (to_text (n * 10 ^ suc d + r))
unfolding major_to_minor
read_decimal n d r f arg scale frac =
    let df = frac.digits in
    let nf = frac.filled in
    let (dw, nw) = to_text-digits n in
    rw
      (
        trim-plain _ (is_plain-decimal (to_text n) f dw df),
        is_price-decimal (to_text n) f dw nw df nf,
        split-decimal (to_text n) f dw df,
        scale,
        frac.exact,
        frac.value,
        big_int-to_text n,
        suc_not_zero d,
      )
      refl

-- The text of an amount that is not negative, at any number of decimals or for any currency, is read
-- back as the digits of the amount.
pub major_to_minor-minor_to_major :
    (n : ℕ) (arg : Scale) → major_to_minor (minor_to_major (pos n) arg) arg ≡ some (to_text n)
unfolding minor_to_major
major_to_minor-minor_to_major n arg = go (decimals_of arg) refl
  where
    go :
        (d : ℕ)
        → decimals_of arg ≡ d
        → major_to_minor (minor_to_major (pos n) arg) arg ≡ some (to_text n)
    go zero e = rw (minor_to_major, e) (read_integral n arg e)
    go (suc d) e =
        rw (minor_to_major, e, suc_not_zero d)
          (read_decimal (n / 10 ^ suc d) d (n % 10 ^ suc d) _ arg e
              (pad_start-IsFraction d (n % 10 ^ suc d) (mod-lt n (pow_pos (suc d))))
            ∙ ap (λ m. some (to_text m)) (div-add-mod' n (10 ^ suc d)))

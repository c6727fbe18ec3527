-- ===== src/Shared/Text.antt =====
-- Texts that the code takes apart or changes case of, as lists of character codes. Ids are only
-- compared, so they are numbers elsewhere. `to_upper_case` is that of JavaScript on ASCII texts, which
-- ISO 4217 codes are.
use Prim.Native.Char.{code}
use kartit.Prelude.{
  ℕ, String, ◌-◌, ◌≡◌, refl, Bool, true, false, ◌&&◌, List, [], ◌∷◌, map, arith, leb, ◌==◌,
  if◌then◌else◌,
}

abbrev pub Text : Type 0
Text = List ℕ

abbrev pub codes : String → Text
codes String.[] = []
codes (String.◌∷◌ c s) = code c ∷ codes s

abbrev pub text_eq : Text → Text → Bool
text_eq [] [] = true
text_eq (a ∷ s) (b ∷ t) = (a == b) && text_eq s t
text_eq _ _ = false

abbrev pub is_lower : ℕ → Bool
is_lower c = leb b'a' c && leb c b'z'

abbrev pub is_digit : ℕ → Bool
is_digit c = leb b'0' c && leb c b'9'

abbrev pub to_upper : ℕ → ℕ
to_upper c = if is_lower c then c - 32 else c

-- A column of the type citext compares without regard to the case of letters: here of the letters of
-- ASCII, in which promotion codes are written (packages/shared/src/schemas/promotion.ts).
abbrev pub citext_eq : Text → Text → Bool
citext_eq [] [] = true
citext_eq (a ∷ s) (b ∷ t) = (to_upper a == to_upper b) && citext_eq s t
citext_eq _ _ = false

unfoldable pub to_upper_case : Text → Text
to_upper_case = map to_upper

pub text_eq_refl : (s : Text) → text_eq s s ≡ true
text_eq_refl [] = refl
text_eq_refl (a ∷ s) = ground (arith, text_eq_refl s)

pub text_eq_sound : (s t : Text) → text_eq s t ≡ true → s ≡ t
text_eq_sound [] [] h = refl
text_eq_sound [] (b ∷ t) h = cc
text_eq_sound (a ∷ s) [] h = cc
text_eq_sound (a ∷ s) (b ∷ t) h = ground (arith, text_eq_sound s t)

to_upper_idem : (c : ℕ) → to_upper (to_upper c) ≡ to_upper c
to_upper_idem c = ground arith

pub to_upper_case_idem : (s : Text) → to_upper_case (to_upper_case s) ≡ to_upper_case s
unfolding to_upper_case
to_upper_case_idem [] = refl
to_upper_case_idem (c ∷ s) = ground (arith, to_upper_idem c, to_upper_case_idem s)

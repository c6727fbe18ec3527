-- ===== src/Promotions/Tests.antt =====
-- The sample promotion on two lamps.
use kartit.Prelude.{◌≡◌, ◌≢◌, refl, none, some, arith}
use kartit.Prelude.Int.{pos, ◌≤ℤ◌}
use kartit.Prelude.Table.{find_where}
use kartit.Shared.Text.{codes}
use kartit.Samples.{shop, tenth}
use kartit.Promotions.{ValidatedPromotion, validate}
use kartit.Promotions.Limits.{IsEligible, validate_sound}

validate_sound_example :
    ((r : ValidatedPromotion)
      → validate none 100 (codes "tenth") (pos 2000) 7 shop ≡ some r
      → IsEligible 100 2000 7 4 tenth shop.orders
        × (r.id ≡ 4)
        × (pos 0 ≤ℤ r.discount_minor)
        × (r.discount_minor ≤ℤ pos 2000))
    × (IsEligible 100 2000 7 4 tenth shop.orders
        → validate none 100 (codes "tenth") (pos 2000) 7 shop ≢ none)
unfolding find_where
validate_sound_example =
    validate_sound none 100 (codes "tenth") 2000 7 4 1000 tenth shop refl refl (omega arith)

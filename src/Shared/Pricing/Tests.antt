-- ===== src/Shared/Pricing/Tests.antt =====
-- Prices of small carts.
use kartit.Prelude.{ℕ, ◌≡◌, ◌≤◌, ◌<◌, ◌+◌, ◌*◌, some}
use kartit.Prelude.Int.{pos, ◌+ℤ◌, ◌≤ℤ◌}
use kartit.Shared.Text.{codes}
use kartit.Shared.Pricing.{PricingInput, apply_rate, calculate_pricing}
use kartit.Shared.Pricing.Laws.{calculate_pricing_adds_up, apply_rate_nearest}

abbrev rupees : PricingInput
rupees = record { subtotal = pos 20000; currency = codes "inr"; discount_minor = some (pos 2500) }

calculate_pricing_adds_up_example :
    (pos 0 ≤ℤ (calculate_pricing rupees).discount)
    × ((calculate_pricing rupees).discount ≤ℤ (calculate_pricing rupees).subtotal)
    × (pos 0 ≤ℤ (calculate_pricing rupees).shipping)
    × (pos 0 ≤ℤ (calculate_pricing rupees).tax)
    × ((calculate_pricing rupees).total +ℤ (calculate_pricing rupees).discount
        ≡ (calculate_pricing rupees).subtotal
          +ℤ (calculate_pricing rupees).shipping
          +ℤ (calculate_pricing rupees).tax)
calculate_pricing_adds_up_example = calculate_pricing_adds_up rupees

apply_rate_nearest_example :
    (t : ℕ) × (apply_rate (pos 17503) 180000 ≡ pos t)
    × (1000000 * t ≤ 17503 * 180000 + 500000)
    × (17503 * 180000 + 500000 < 1000000 * t + 1000000)
apply_rate_nearest_example = apply_rate_nearest 17503 180000

-- ===== src/Cart/Totals.antt =====
-- `cartService.summary` (apps/api/src/modules/cart/cart.service.ts).
use kartit.Prelude.{ℕ, Option, none, some, List, [], ◌∷◌, if◌then◌else◌, not}
use kartit.Prelude.Int.{ℤ, pos, ltb_ℤ}
use kartit.Prelude.Table.{}
use kartit.Result.{
  Result, ok, err, Error, record_not_found, not_found, not_found_code, bad_request, cart_empty,
  conflict, product_inactive, insufficient_stock, promotion_invalid, throw_if,
}
use kartit.Result
use kartit.Shared.Text.{Text}
use kartit.Shared.Pricing.{PricingBreakdown, calculate_pricing}
use kartit.Inventory.{available_stock}
use kartit.Promotions.{ValidatedPromotion}
use kartit.Store.{Db, Promotion}
use kartit.Cart.{
  Line, CartIds, cart_lines, sum_lines, checked_promotion, cart_currency, get_or_create_cart,
  is_available,
}

-- The stock revalidation of `summary`, on the rows that came with the cart.
unfoldable pub revalidate : List Line → Result (Unit {0})
revalidate [] = ok tt
revalidate (line ∷ lines) =
    if not (is_available line.product)
    then err (conflict product_inactive)
    else if line.product.is_deleted
    then err (conflict product_inactive)
    else if ltb_ℤ (available_stock line.product) line.quantity
    then err (conflict insufficient_stock)
    else revalidate lines

-- `CartSummaryDTO`: its cart, its items, the breakdown and the code.
pub record CartSummary : Type 0 where
  pub cart_id : ℕ
  pub items : List Line
  pub pricing : PricingBreakdown
  pub promotion_code : Option Text

abbrev pub promo_discount : Option ValidatedPromotion → ℤ
promo_discount none = pos 0
promo_discount (some p) = p.discount_minor

abbrev pub promo_code : Option ValidatedPromotion → Option Text
promo_code none = none
promo_code (some p) = some p.code

unfoldable pub summarise :
    Option (ℕ × Promotion) → ℕ → ℕ → Option Text → ℕ → List Line → Db → Result CartSummary
summarise cached now user_id code cart_id [] db = err (bad_request cart_empty)
summarise cached now user_id code cart_id (line ∷ lines) db =
    Result.◌>>=◌ (revalidate (line ∷ lines)) λ _.
      let subtotal = sum_lines (pos 0) (line ∷ lines) in
      Result.◌>>=◌ (checked_promotion cached now code subtotal user_id db) λ promo. ok (record {
        cart_id = cart_id;
        items = line ∷ lines;
        pricing = calculate_pricing (record {
          subtotal = subtotal;
          currency = cart_currency (line ∷ lines);
          discount_minor = some (promo_discount promo);
        });
        promotion_code = promo_code promo;
      })

abbrev pub summary_in :
    Option (ℕ × Promotion) → ℕ → ℕ → Option Text → ℕ × Db → Result CartSummary × Db
summary_in cached now user_id code (cart_id, db) =
    elim (cart_lines cart_id db.products db.cart_items) [
      | err e ↦ (err e, db)
      | ok lines ↦ (summarise cached now user_id code cart_id lines db, db)
    ]

unfoldable pub summary :
    CartIds → Option (ℕ × Promotion) → ℕ → ℕ → Option Text → Db → Result CartSummary × Db
summary ids cached now user_id code db =
    summary_in cached now user_id code (get_or_create_cart ids user_id db)

-- ===== src/Cart/Summary.antt =====
-- The cart's summary and the order that is made of the same cart
-- (apps/api/src/modules/cart/cart.service.ts and apps/api/src/modules/orders/orders.service.ts).
use kartit.Prelude.{
  ℕ, ◌≡◌, refl, true, Option, none, some, List, [], ◌∷◌, arith, All, Option-cases, inl, inr,
}
use kartit.Prelude.Int.{pos}
use kartit.Prelude.Table.{Table, find}
use kartit.Result.{ok, err, Error, Result-cases}
use kartit.Shared.Text.{Text, text_eq}
use kartit.Store.{Db, Product, CartItem, Promotion, Address}
use kartit.Cart.{Line, CartIds, cart_lines, sum_lines, checked_promotion, get_or_create_cart}
use kartit.Cart.Totals.{CartSummary, revalidate, summarise, summary}
use kartit.Orders.Create.{
  Draft, check_line, check_lines, draft_for, prepare_lines, own_address, Input, prepare,
}

-- Lines that show their products as they stand.
abbrev IsCurrent : Table Product → List Line → Type 0
IsCurrent products = All (λ line. find line.product_id products ≡ some line.product)

cart_lines-IsCurrent :
    (cart_id : ℕ) (products : Table Product) (t : Table CartItem) (lines : List Line)
    → cart_lines cart_id products t ≡ ok lines
    → IsCurrent products lines
unfolding cart_lines
cart_lines-IsCurrent cart_id products [] lines e = ground arith
cart_lines-IsCurrent cart_id products ((k, item) ∷ t) lines e =
    elim (Result-cases (cart_lines cart_id products t)) [
      | inr (why, f) ↦ absurd (ground arith)
      | inl (rest, f) ↦ elim (Option-cases (find item.product_id products)) [
        | inl g ↦ ground (arith, cart_lines-IsCurrent cart_id products t rest f)
        | inr (p, g) ↦ ground (arith, cart_lines-IsCurrent cart_id products t rest f)
      ]
    ]

-- The two loops over the cart's lines come to the same.
check_lines-revalidate :
    (products : Table Product) (lines : List Line)
    → IsCurrent products lines
    → check_lines products lines ≡ revalidate lines
unfolding revalidate check_lines check_line
check_lines-revalidate products [] h = refl
check_lines-revalidate products (line ∷ lines) h =
    ground (arith, h.0, check_lines-revalidate products lines h.1)

module _ (cached : Option (ℕ × Promotion)) (stripe_currency : Text) (now user_id : ℕ)
    (code : Option Text) (a : Address) (cart_id : ℕ) (db : Db) where
  -- From the lines on: the order's draft has the summary's breakdown, or its error.
  same_lines :
      (lines : List Line)
      → IsCurrent db.products lines
      → ((s : CartSummary)
          → summarise cached now user_id code cart_id lines db ≡ ok s
          → text_eq s.pricing.currency stripe_currency ≡ true
          → (draft : Draft) × (prepare_lines cached stripe_currency now user_id code a cart_id lines
                db
              ≡ ok draft)
            × (draft.pricing ≡ s.pricing)
            × (draft.promotion_code ≡ s.promotion_code))
        × ((why : Error)
            → summarise cached now user_id code cart_id lines db ≡ err why
            → prepare_lines cached stripe_currency now user_id code a cart_id lines db ≡ err why)
  unfolding summarise prepare_lines
  same_lines [] h = (λ s e. absurd (ground arith), λ why e. ground arith)
  same_lines (line ∷ lines) h =
      let subtotal = sum_lines (pos 0) (line ∷ lines) in
      let same = check_lines-revalidate db.products (line ∷ lines) h in
      elim (Result-cases (revalidate (line ∷ lines))) [
        | inr (e, f) ↦ (λ s g. absurd (ground arith), λ why g. ground (arith, same))
        | inl (u, f) ↦ elim (Result-cases (checked_promotion cached now code subtotal user_id db)) [
          | inr (e, p) ↦ (λ s g. absurd (ground arith), λ why g. ground (arith, same))
          | inl (none, p) ↦ (
            λ s g same_currency.
                elim (Result-cases
                  (draft_for stripe_currency user_id a cart_id line lines subtotal none)) [
                    | inr (e, q) ↦ absurd (ground arith)
                    | inl (draft, q) ↦ (draft, ground (arith, same), ground arith, ground arith)
                  ],
            λ why g. absurd (ground arith),
          )
          | inl (some promo, p) ↦ (
            λ s g same_currency.
                elim (Result-cases
                  (draft_for stripe_currency user_id a cart_id line lines subtotal (some promo))) [
                    | inr (e, q) ↦ absurd (ground arith)
                    | inl (draft, q) ↦ (draft, ground (arith, same), ground arith, ground arith)
                  ],
            λ why g. absurd (ground arith),
          )
        ]
      ]

-- What the customer sees is what the customer pays: with the cart and the products as they are, and an address of the customer's own, ordering comes to a draft with the very breakdown and code that the cart's summary shows, where its currency is the one of the checkout, and where the summary is refused the order is refused with the same error.
pub summary-prepare :
    (ids : CartIds) (cached : Option (ℕ × Promotion)) (stripe_currency : Text)
    (now user_id cart_id : ℕ) (input : Input) (a : Address) (db : Db)
    → find input.shipping_address_id db.addresses ≡ some a
    → a.user_id ≡ user_id
    → find user_id db.carts ≡ some cart_id
    → let shown = (summary ids cached now user_id input.promotion_code db).0 in
      ((s : CartSummary)
        → shown ≡ ok s
        → text_eq s.pricing.currency stripe_currency ≡ true
        → (draft : Draft) × (prepare cached stripe_currency now user_id input db ≡ ok draft)
          × (draft.pricing ≡ s.pricing)
          × (draft.promotion_code ≡ s.promotion_code))
      × ((why : Error)
          → shown ≡ err why
          → prepare cached stripe_currency now user_id input db ≡ err why)
unfolding summary get_or_create_cart prepare own_address
summary-prepare ids cached stripe_currency now user_id cart_id input a db address own cart =
    elim (Result-cases (cart_lines cart_id db.products db.cart_items)) [
      | inr (e, f) ↦ (λ s g. absurd (ground arith), λ why g. ground arith)
      | inl (lines, f) ↦
          let (priced, refused) =
            same_lines cached stripe_currency now user_id input.promotion_code a cart_id db lines
              (cart_lines-IsCurrent cart_id db.products db.cart_items lines f) in
          (
            λ s g same_currency.
                let (draft, made, pricing, code) = priced s (ground arith) same_currency in
                (draft, ground arith, pricing, code),
            λ why g. let same = refused why (ground arith) in ground arith,
          )
    ]

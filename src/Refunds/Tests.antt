-- ===== src/Refunds/Tests.antt =====
-- One refund request of the sample customer, and two administrators.
use kartit.Prelude.{ℕ, ◌≡◌, ◌≤◌, refl, none, some, [], ◌∷◌}
use kartit.Prelude.Int.{pos}
use kartit.Prelude.Table.{find, find_where, modify, insert}
use kartit.Result.{Result, ok, err, conflict, already_processed, internal, stripe_refund_failed}
use kartit.Shared.Enums.{delivered}
use kartit.Shared.Text.{codes}
use kartit.Store.{Db, Order, RefundRequest, approved, rejected, after, ⊤}
use kartit.Samples.{shop, usd, home, two_lamps}
use kartit.Refunds.{
  deadline, is_request_of, new_request, create_request, request, review, approval_error,
  approve_marked, approve_write, reject_write,
}
use kartit.Refunds.Once.{request_accepted, approve_write-once, reject_write-after_approval}

abbrev arrived : Order
arrived = record {
  order_number = codes "KART-1";
  user_id = 7;
  status = delivered;
  subtotal_minor = pos 2000;
  discount_minor = pos 0;
  shipping_minor = pos 500;
  tax_minor = pos 0;
  total_minor = pos 2500;
  promotion_id = none;
  promotion_code = none;
  currency = usd;
  ship_to = home;
  items = two_lamps ∷ [];
  paid_at = some 200;
  delivered_at = some 1000;
  created_at = 100;
  updated_at = 1000;
}

abbrev delivered_shop : Db
delivered_shop = record shop { orders = (11, arrived) ∷ [] }

abbrev asked : RefundRequest
asked = new_request 7 11 none

abbrev asked_shop : Db
asked_shop = record delivered_shop { refund_requests = (5, asked) ∷ [] }

request_accepted_example :
    (o : Order) × (find 11 delivered_shop.orders ≡ some o)
    × (o.user_id ≡ 7)
    × (o.status ≡ delivered)
    × (2000 ≤ deadline o)
    × (find_where (is_request_of 11) delivered_shop.refund_requests ≡ none)
    × (asked_shop.refund_requests ≡ insert 5 asked delivered_shop.refund_requests)
unfolding request create_request find find_where
request_accepted_example = request_accepted 2000 5 7 11 none delivered_shop asked_shop asked refl

abbrev refunds_go : ℕ → Result ⊤
refunds_go order_id = ok tt

abbrev refunds_fail : ℕ → Result ⊤
refunds_fail order_id = err (internal stripe_refund_failed)

approve_write-once_example :
    ((approve_write refunds_go 3000 1 5 asked asked_shop).executed ≡ 11 ∷ [])
    × (approve_write refunds_go 3001 2 5 asked
          (approve_write refunds_go 3000 1 5 asked asked_shop).db
        ≡ approval_error
            (conflict already_processed)
            (approve_write refunds_go 3000 1 5 asked asked_shop).db)
unfolding approve_write approve_marked find modify
approve_write-once_example =
    approve_write-once refunds_go refunds_go 3000 3001 1 2 5 asked asked
      (review approved 1 3000 asked) asked_shop refl

reject_write-after_approval_example :
    ((approve_write refunds_go 3000 1 5 asked asked_shop).executed ≡ 11 ∷ [])
    × (find 5
          (after
            (reject_write 3001 2 5 (approve_write refunds_go 3000 1 5 asked asked_shop).db)
            (approve_write refunds_go 3000 1 5 asked asked_shop).db).refund_requests
        ≡ some (review rejected 2 3001 (review approved 1 3000 asked)))
unfolding approve_write approve_marked find modify
reject_write-after_approval_example =
    reject_write-after_approval refunds_go 3000 3001 1 2 5 asked (review approved 1 3000 asked)
      asked_shop refl

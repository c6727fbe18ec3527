-- ===== src/Auth/Tests.antt =====
-- One customer. Tokens are their payloads, and a password is its own hash.
use kartit.Prelude.{ℕ, ◌≡◌, refl, Bool, true, Option, none, some, [], ◌∷◌, arith}
use kartit.Prelude.Table.{find, find_where, modify}
use kartit.Result.{Result, ok, err, app_error, forbidden, session_invalid, invalid_credentials}
use kartit.Shared.Text.{Text, codes, text_eq, to_upper_case}
use kartit.Auth.{
  User, UserRole, customer, Claims, Accounts, put, sign_in, sign_out_all, check_user, check_payload,
  require_auth, require_admin,
}
use kartit.Auth.Calls.{signs_out_all, requests, apply, apply_all}
use kartit.Auth.Sessions.{ended-refused}

abbrev plain : Text → Text
plain s = s

abbrev same : Claims → Claims
same c = c

abbrev ann : User
ann = record {
  email = codes "ann@shop.test";
  name = none;
  role = customer;
  password_hash = codes "secret";
  token_version = 0;
}

abbrev nobody : Accounts
nobody = record { users = []; user_cache = λ id. none }

abbrev with_ann : Accounts
with_ann = record { users = (1, ann) ∷ []; user_cache = λ id. none }

abbrev ann_claims : Claims
ann_claims = record { sub = 1; role = customer; tv = 0 }

abbrev guard : Bool → Option Claims → Accounts → Result (ℕ × UserRole) × Accounts
guard = require_auth same some plain text_eq

signed_in :
    sign_in same some plain text_eq (codes "ANN@shop.test") (codes "secret") with_ann
    ≡ ok
        (record { id = 1; email = codes "ann@shop.test"; name = none; role = customer }, ann_claims)
unfolding sign_in find_where to_upper_case
signed_in = refl

wrong_password :
    sign_in same some plain text_eq (codes "ann@shop.test") (codes "guess") with_ann
    ≡ err (app_error 401 invalid_credentials)
unfolding sign_in find_where to_upper_case
wrong_password = refl

let_in : (guard true (some ann_claims) with_ann).0 ≡ ok (1, customer)
unfolding require_auth check_payload check_user find
let_in = refl

no_admin : require_admin (some (1, customer)) ≡ err forbidden
unfolding require_admin
no_admin = refl

-- A request that has read the user before a sign-out, and stores what it read after it, leaves an entry
-- that lets the old token in for as long as it lives.
abbrev stored_late : Accounts
stored_late =
    let after : Accounts = (sign_out_all same some plain text_eq 1 with_ann).1 in
    record after {
      user_cache =
          put 1 (some (record { id = 1; role = customer; token_version = 0 })) after.user_cache;
    }

still_let_in : (guard true (some ann_claims) stored_late).0 ≡ ok (1, customer)
unfolding require_auth check_payload check_user find sign_out_all modify
still_let_in = refl

ann_there :
    find 1 (apply_all same some plain text_eq (requests true (some ann_claims) ∷ []) with_ann).users
    ≡ some ann
unfolding apply_all apply require_auth check_payload check_user find
ann_there = refl

ended-refused_example :
    (guard true (some ann_claims) (
      apply_all same some plain text_eq (requests true (some ann_claims) ∷ []) (
        apply same some plain text_eq
          (signs_out_all 1)
          (apply_all same some plain text_eq (requests true (some ann_claims) ∷ []) with_ann)))).0
    ≡ err (app_error 401 session_invalid)
ended-refused_example =
    ended-refused same some plain text_eq with_ann (requests true (some ann_claims) ∷ [])
      (requests true (some ann_claims) ∷ []) (signs_out_all 1) true ann_claims ann_claims ann
      (λ id. refl) refl ann_there (omega arith) refl

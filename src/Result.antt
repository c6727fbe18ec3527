-- ===== src/Result.antt =====
-- Errors as values: AppError (apps/api/src/lib/errors.ts), by its HTTP status and its code, and the
-- errors of the database client that the services meet. Message texts are left out.
use kartit.Prelude.{ℕ, ◌≡◌, refl, Bool, true, false, Option, none, some, ◌⊎◌, inl, inr}

-- The code strings, those of packages/shared/src/errorCodes.ts and those written in the services.
pub data Code : Type 0 where
  forbidden_code not_found_code address_not_found cart_empty product_inactive insufficient_stock :
      Code
  promotion_invalid promotion_exhausted unsupported_currency order_invalid_state : Code
  shipped_cannot_cancel no_payment invalid_status already_refunded refund_window_expired : Code
  duplicate_request already_processed stripe_refund_failed no_payment_record : Code
  promotion_code_in_use promotion_not_found invalid_signature stripe_not_configured : Code
  validation_failed unauthorized_code idempotency_conflict idempotency_in_progress : Code
  invalid_parent parent_not_found max_depth has_subcategories slug_taken : Code
  email_in_use invalid_credentials invalid_token session_invalid : Code
  product_has_references : Code

pub data Error : Type 0 where
  app_error : ℕ → Code → Error
  -- P2025, the row of an `update` or a `findUniqueOrThrow` is not there.
  record_not_found : Error
  -- P2002, a unique column already holds the value.
  unique_violation : Error
  -- The client refuses the query itself, for a null where a key is asked for.
  invalid_query : Error

abbrev pub bad_request : Code → Error
bad_request = app_error 400

abbrev pub forbidden : Error
forbidden = app_error 403 forbidden_code

abbrev pub not_found : Code → Error
not_found = app_error 404

abbrev pub conflict : Code → Error
conflict = app_error 409

abbrev pub internal : Code → Error
internal = app_error 500

-- What a call ends in: a value, or the error that it throws.
pub data Result {ℓ} (V : Type ℓ) : Type ℓ where
  ok : V → Result V
  err : Error → Result V

pub Result-cases {ℓ} :
    {V : Type ℓ} (r : Result V) → ((v : V) × (r ≡ ok v)) ⊎ ((why : Error) × (r ≡ err why))
Result-cases (ok v) = inl (v, refl)
Result-cases (err why) = inr (why, refl)

pub err≢ok {ℓ} : {V : Type ℓ} {why : Error} {v : V} → ¬ (err why ≡ ok v)
err≢ok h = cc

-- `if (c) throw e`
abbrev pub throw_if : Bool → Error → Result (Unit {0})
throw_if true why = err why
throw_if false why = ok tt

-- `if (!o) throw e`
abbrev pub or_throw {ℓ} : {V : Type ℓ} → Option V → Error → Result V
or_throw none why = err why
or_throw (some v) why = ok v

module _ {ℓ κ} {V : Type ℓ} {W : Type κ} where
  infixl 5 ◌>>=◌
  abbrev pub ◌>>=◌ : Result V → (V → Result W) → Result W
  ok v >>= next = next v
  err why >>= next = err why

  pub >>=-eq-ok :
      (r : Result V) (next : V → Result W) {w : W}
      → (r >>= next) ≡ ok w
      → (v : V) × (r ≡ ok v) × (next v ≡ ok w)
  >>=-eq-ok (ok v) next e = (v, refl, e)
  >>=-eq-ok (err why) next e = cc

infixl 5 ◌>>◌
abbrev pub ◌>>◌ {ℓ} : {W : Type ℓ} → Result (Unit {0}) → Result W → Result W
r >> rest = r >>= λ _. rest

-- ===== src/Payments/Intents.antt =====
-- Payment intents (apps/api/src/modules/payments/payments.service.ts): a customer who asks twice.
use kartit.Prelude.{
  ℕ, ◌≡◌, refl, Bool, false, arith, Option-cases, inl, inr, ◌*◌, ◌^◌, ◌≤◌, zero, suc,
}
use Prim.Native.Nat.{min}
use kartit.Prelude.Table.{find, find_where, find_where-modify, IsDistinct}
use kartit.Result.{ok}
use kartit.Store.{Db}
use kartit.Payments.{backoff_delay, is_payment_of, set_provider_id, create_payment_intent}

-- Where payment ids are distinct, a customer who asks for a payment intent again, while the first one has not ended, is given the same one, and nothing changes: an order has one open intent.
pub create_payment_intent-again :
    (has_ended later : ℕ → Bool) (new_intent newer pi order_id user_id : ℕ) (db : Db)
    → IsDistinct db.payments
    → (create_payment_intent has_ended new_intent order_id user_id db).0 ≡ ok pi
    → later pi ≡ false
    → let db' = (create_payment_intent has_ended new_intent order_id user_id db).1 in
      create_payment_intent later newer order_id user_id db' ≡ (ok pi, db')
unfolding create_payment_intent
create_payment_intent-again has_ended later new_intent newer pi order_id user_id db d e
      open_intent =
    elim (Option-cases (find order_id db.orders)) [
      | inl f ↦ absurd (ground arith)
      | inr (o, f) ↦ elim (Option-cases (find_where (is_payment_of order_id) db.payments)) [
        | inl g ↦ absurd (ground arith)
        | inr ((k, p), g) ↦
            let moved =
              find_where-modify (is_payment_of order_id) k (set_provider_id new_intent) p
                db.payments (λ x. refl) d g in
            ground (arith, moved)
      ]
    ]

power_pos : (n : ℕ) → 1 ≤ 2 ^ n
power_pos zero = omega arith
power_pos (suc n) = omega (arith, power_pos n)

-- The wait before a retry is ten seconds after the first attempt, and after each further attempt twice what it was, but never more than a day.
pub backoff_delay_doubles :
    (n : ℕ)
    → (backoff_delay 1 ≡ 10000)
      × (backoff_delay (suc (suc n)) ≡ min 86400000 (2 * backoff_delay (suc n)))
      × (10000 ≤ backoff_delay (suc n))
      × (backoff_delay (suc n) ≤ 86400000)
unfolding backoff_delay
backoff_delay_doubles n =
    (refl, ground (arith, power_pos n), ground (arith, power_pos n), ground arith)

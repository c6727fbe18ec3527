-- ===== src/Shared/Transitions.antt =====
-- packages/shared/src/order-transitions.ts: the admin's status transitions.
use kartit.Prelude.{◌≡◌, Bool, true, List, [], ◌∷◌, ◌==◌, any, arith}
use kartit.Shared.Enums.{
  OrderStatus, pending, paid, processing, shipped, delivered, cancelled, failed, refunded,
  status_index,
}

abbrev pub status_eq : OrderStatus → OrderStatus → Bool
status_eq s t = status_index s == status_index t

-- `statuses.includes(s)`
abbrev pub includes : List OrderStatus → OrderStatus → Bool
includes l s = any (status_eq s) l

unfoldable pub valid_status_transitions : OrderStatus → List OrderStatus
valid_status_transitions pending = paid ∷ cancelled ∷ failed ∷ []
valid_status_transitions paid = processing ∷ []
valid_status_transitions processing = shipped ∷ []
valid_status_transitions shipped = delivered ∷ []
valid_status_transitions delivered = []
valid_status_transitions cancelled = []
valid_status_transitions failed = []
valid_status_transitions refunded = []

unfoldable pub get_next_statuses : OrderStatus → List OrderStatus
unfolding valid_status_transitions
get_next_statuses current = valid_status_transitions current

pub status_eq_sound : (s t : OrderStatus) → status_eq s t ≡ true → s ≡ t
status_eq_sound s t h = ground arith

pub status_eq_refl : (s : OrderStatus) → status_eq s s ≡ true
status_eq_refl s = ground arith

-- ===== src/Orders/Progress.antt =====
-- How an order's status may change (apps/api/src/modules/orders): which statuses hold a reservation, which have
-- sent their items away, and which have ended.
use kartit.Prelude.{
  ℕ, ◌≡◌, subst, Bool, true, false, not, ◌&&◌, some, arith, ◌==◌, Bool-cases, inl, inr,
}
use kartit.Prelude.Table.{Table, find, modify, find-modify, find-modify_self}
use kartit.Shared.Enums.{OrderStatus, pending, paid, processing, shipped, delivered}
use kartit.Shared.Transitions.{status_eq}
use kartit.Store.{Order}

-- The statuses whose orders hold a reservation, and those whose items have left.
abbrev pub is_held : OrderStatus → Bool
is_held pending = true
is_held paid = true
is_held processing = true
is_held _ = false

abbrev pub is_away : OrderStatus → Bool
is_away shipped = true
is_away delivered = true
is_away _ = false

-- Cancelled, failed or refunded.
abbrev pub is_ended : OrderStatus → Bool
is_ended s = not (is_held s) && not (is_away s)

-- An order that has ended stays so, and none becomes pending again.
abbrev pub Progress : OrderStatus → OrderStatus → Type 0
Progress s s' =
    (is_ended s ≡ true → is_ended s' ≡ true)
    × (status_eq s pending ≡ false → status_eq s' pending ≡ false)

abbrev pub TableProgress : Table Order → Table Order → Type 0
TableProgress t t' =
    (id : ℕ) (o : Order)
    → find id t ≡ some o
    → (o' : Order) × (find id t' ≡ some o') × Progress o.status o'.status

pub Progress-refl : (s : OrderStatus) → Progress s s
Progress-refl s = (λ h. h, λ h. h)

pub TableProgress-refl : (t : Table Order) → TableProgress t t
TableProgress-refl t id o e = (o, e, Progress-refl o.status)

pub TableProgress-trans :
    (t u v : Table Order) → TableProgress t u → TableProgress u v → TableProgress t v
TableProgress-trans t u v f g id o e =
    let (x, here, (ended, open_order)) = f id o e in
    let (y, there, (ends, opens)) = g id x here in
    (y, there, (λ h. ends (ended h), λ h. opens (open_order h)))

pub Progress-release : (s s' : OrderStatus) → is_held s ≡ true → is_held s' ≡ false → Progress s s'
Progress-release s s' h k = (λ e. absurd (ground arith), λ e. ground arith)

pub Progress-return : (s s' : OrderStatus) → is_away s ≡ true → is_held s' ≡ false → Progress s s'
Progress-return s s' h k = (λ e. absurd (ground arith), λ e. ground arith)

pub Progress-relabel :
    (s s' : OrderStatus)
    → is_held s' ≡ is_held s
    → is_away s' ≡ is_away s
    → status_eq s' pending ≡ false
    → Progress s s'
Progress-relabel s s' h k e = (λ ended. ground arith, λ _. e)

pub TableProgress-modify :
    (id : ℕ) (o : Order) (f : Order → Order) (t : Table Order)
    → find id t ≡ some o
    → Progress o.status (f o).status
    → TableProgress t (modify id f t)
TableProgress-modify id o f t found moves j x e = elim (Bool-cases (j == id)) [
  | inr other ↦ (x, ground (arith, find-modify j id f t), Progress-refl x.status)
  | inl same ↦
      let at_id : id ≡ j = ground arith in
      let same_row : o ≡ x = ground (arith, found, e) in
      (
        f x,
        subst (λ k. find k (modify id f t) ≡ some (f x)) at_id
            (find-modify_self id f t x (rw (← same_row) found)),
        subst (λ (y : Order). Progress y.status (f y).status) same_row moves,
      )
]

-- ===== src/Categories/Nesting/Removal.antt =====
-- The removal of a category with its children (apps/api/src/modules/categories/categories.service.ts) keeps the two
-- levels.
use mathlib.Core.Option
use kartit.Prelude.{
  ℕ, ◌≡◌, refl, sym, ap, ◌∙◌, Bool, true, false, Option, none, some, List, [], ◌∷◌, any, arith,
  ◌==◌, if◌then◌else◌, inl, inr, Bool-cases, Option-cases, true≢false, none≢some,
}
use kartit.Prelude.Table.{Table, find, modify, find-modify, IsDistinct, IsDistinct-modify}
use kartit.Categories.{Category, child_ids, soft_delete_in, soft_delete, is_live_child}
use kartit.Categories.Nesting.{
  shape_of, shape_at, IsNested, IsTwoLevel, shape-live_child, parent_in, deleted_in,
}

find-soft_delete_in :
    (ids : List ℕ) (k : ℕ) (t : Table Category)
    → find k (soft_delete_in ids t)
      ≡ (if any (◌==◌ k) ids then Option.map soft_delete (find k t) else find k t)
unfolding find soft_delete_in
find-soft_delete_in ids k [] = ground arith
find-soft_delete_in ids k ((j, x) ∷ t) = elim (Bool-cases (k == j)) [
  | inl here ↦ let at_k : k ≡ j = ground arith in rw at_k (ground arith)
  | inr there ↦ ground (arith, find-soft_delete_in ids k t)
]

IsDistinct-soft_delete_in :
    (ids : List ℕ) (t : Table Category) → IsDistinct t → IsDistinct (soft_delete_in ids t)
unfolding IsDistinct soft_delete_in
IsDistinct-soft_delete_in ids [] d = tt
IsDistinct-soft_delete_in ids ((j, x) ∷ t) d =
    (find-soft_delete_in ids j t ∙ ground (arith, d.0), IsDistinct-soft_delete_in ids t d.1)

-- Every live child is in the list of the children, and nothing else is.
child_ids-all :
    (id k : ℕ) (t : Table Category)
    → shape_at k t ≡ some (some id, false)
    → any (◌==◌ k) (child_ids id t) ≡ true
unfolding find child_ids
child_ids-all id k [] h = cc
child_ids-all id k ((j, x) ∷ t) h = elim (Bool-cases (k == j)) [
  | inl here ↦ let child = shape-live_child id x (rw here at h) in rw child (ground arith)
  | inr there ↦ ground (arith, child_ids-all id k t)
]

live_child-shape :
    (id : ℕ) (x : Category) → is_live_child id x ≡ true → shape_of (some x) ≡ some (some id, false)
live_child-shape id x h = elim (Option-cases x.parent_id) [
  | inl e ↦ absurd (true≢false (sym (rw e at h)))
  | inr (p, e) ↦
      let same : p ≡ id = ground arith in
      let lives : x.is_deleted ≡ false = ground arith in rw (e, lives, same) refl
]

child_ids-only :
    (id k : ℕ) (t : Table Category)
    → IsDistinct t
    → any (◌==◌ k) (child_ids id t) ≡ true
    → shape_at k t ≡ some (some id, false)
unfolding find child_ids IsDistinct
child_ids-only id k [] d h = cc
child_ids-only id k ((j, x) ∷ t) d h = elim (Bool-cases (k == j)) [
  | inl here ↦ elim (Bool-cases (is_live_child id x)) [
    | inl child ↦ rw here (live_child-shape id x child)
    | inr other ↦
        let at_k : k ≡ j = ground arith in
        let again = child_ids-only id k t d.1 (rw other at h) in
        absurd (none≢some (sym (ap shape_of (rw (← at_k) at d.0)) ∙ again))
  ]
  | inr there ↦ ground (arith, child_ids-only id k t d.1)
]

abbrev pub removed : ℕ → Table Category → Table Category
removed id t = modify id soft_delete (soft_delete_in (child_ids id t) t)

-- A row after the removal, from whether it is a child, whether it is the category, and the row before.
abbrev row_after : Bool → Bool → Option Category → Option Category
row_after child itself o =
    if itself
    then Option.map soft_delete (if child then Option.map soft_delete o else o)
    else (if child then Option.map soft_delete o else o)

find-removed :
    (id k : ℕ) (t : Table Category)
    → find k (removed id t) ≡ row_after (any (◌==◌ k) (child_ids id t)) (k == id) (find k t)
find-removed id k t =
    let inner = find-soft_delete_in (child_ids id t) k t in
    find-modify k id soft_delete (soft_delete_in (child_ids id t) t) ∙ rw inner refl

still_deleted :
    {a b : Option ℕ} → ¬ (◌≡◌ {A = Option (Option ℕ × Bool)} (some (a, true)) (some (b, false)))
still_deleted h = true≢false (ap deleted_in h)

-- A row that is live after the removal is none of those that are removed.
row_after-live :
    (child itself : Bool) (o : Option Category) (parent : Option ℕ)
    → shape_of (row_after child itself o) ≡ some (parent, false)
    → (child ≡ false) × (itself ≡ false) × (shape_of o ≡ some (parent, false))
row_after-live false false o parent h = (refl, refl, h)
row_after-live true false none parent h = cc
row_after-live true false (some x) parent h = absurd (still_deleted h)
row_after-live false true none parent h = cc
row_after-live false true (some x) parent h = absurd (still_deleted h)
row_after-live true true none parent h = cc
row_after-live true true (some x) parent h = absurd (still_deleted h)

pub child≢top :
    {id : ℕ} → ¬ (◌≡◌ {A = Option (Option ℕ × Bool)} (some (some id, false)) (some (none, false)))
child≢top h = none≢some (sym (ap parent_in h))

-- The parent of a category that is not removed is not removed.
parent_stays :
    (id k p : ℕ) (t : Table Category)
    → IsTwoLevel t
    → shape_at k t ≡ some (some p, false)
    → shape_at p t ≡ some (none, false)
    → any (◌==◌ k) (child_ids id t) ≡ false
    → ((p == id) ≡ false) × (any (◌==◌ p) (child_ids id t) ≡ false)
parent_stays id k p t (distinct, nested) before top not_child = (apart, no_child)
  where
    apart : (p == id) ≡ false
    apart = elim (Bool-cases (p == id)) [
      | inr e ↦ e
      | inl e ↦
          let same : p ≡ id = ground arith in
          absurd (true≢false (sym (child_ids-all id k t (rw same at before)) ∙ not_child))
    ]

    no_child : any (◌==◌ p) (child_ids id t) ≡ false
    no_child = elim (Bool-cases (any (◌==◌ p) (child_ids id t))) [
      | inr e ↦ e
      | inl e ↦ absurd (child≢top (sym (child_ids-only id p t distinct e) ∙ top))
    ]

pub removed-IsTwoLevel : (id : ℕ) (t : Table Category) → IsTwoLevel t → IsTwoLevel (removed id t)
unfolding IsNested
removed-IsTwoLevel id t (distinct, nested) = (
  IsDistinct-modify id soft_delete _ (IsDistinct-soft_delete_in (child_ids id t) t distinct),
  λ k p h.
      let (not_child, not_itself, before) =
        row_after-live _ _ (find k t) (some p) (ap shape_of (sym (find-removed id k t)) ∙ h) in
      let top = nested k p before in
      let (apart, no_child) = parent_stays id k p t (distinct, nested) before top not_child in
      ap shape_of (find-removed id p t) ∙ rw (apart, no_child) top,
)

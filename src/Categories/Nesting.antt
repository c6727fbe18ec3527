-- ===== src/Categories/Nesting.antt =====
-- The two levels of the categories (apps/api/src/modules/categories/categories.service.ts): a live category's
-- parent is live and has no parent.
mod Removal
mod Creation
mod Changes
pub mod Runs
use mathlib.Core.Option
use kartit.Prelude.{
  ℕ, ◌+◌, ◌≡◌, ◌≢◌, refl, sym, ap, ◌∙◌, Bool, true, false, not, ◌&&◌, ◌||◌, Option, none, some,
  List, [], ◌∷◌, arith, ltb, ◌==◌, if◌then◌else◌, inl, inr, ◌⊎◌, Bool-cases, Option-cases,
}
use kartit.Prelude.Table.{
  Table, find, modify, insert, count, find-modify, find-insert_ne, find-insert_self, IsDistinct,
  IsDistinct-modify, IsDistinct-insert,
}
use kartit.Result.{Result, Error, ok, err, ◌>>◌, Result-cases, err≢ok}
use kartit.Shared.Text.{Text}
use kartit.Categories.{
  Category, Catalog, assert_valid_parent, checked_parent, own_checks, is_live_child, is_same, live,
  retire, free_slug,
}

-- The parent of a row, and whether it is deleted.
abbrev pub shape_of : Option Category → Option (Option ℕ × Bool)
shape_of none = none
shape_of (some x) = some (x.parent_id, x.is_deleted)

abbrev pub shape_at : ℕ → Table Category → Option (Option ℕ × Bool)
shape_at k t = shape_of (find k t)

unfoldable pub IsNested : Table Category → Type 0
IsNested t = (k p : ℕ) → shape_at k t ≡ some (some p, false) → shape_at p t ≡ some (none, false)

abbrev pub IsTwoLevel : Table Category → Type 0
IsTwoLevel t = IsDistinct t × IsNested t

pub IsNested-same :
    (t t' : Table Category) → ((k : ℕ) → shape_at k t' ≡ shape_at k t) → IsNested t → IsNested t'
unfolding IsNested
IsNested-same t t' same nested k p h = same p ∙ nested k p (sym (same k) ∙ h)

shape_of-retire :
    (id : ℕ) (slug : Text) (o : Option Category)
    → shape_of (Option.map (retire id slug) o) ≡ shape_of o
shape_of-retire id slug none = refl
shape_of-retire id slug (some x) = refl

shape_at-retire :
    (id : ℕ) (slug : Text) (k : ℕ) (t : Table Category)
    → shape_at k (modify id (retire id slug) t) ≡ shape_at k t
shape_at-retire id slug k t =
    ground (arith, find-modify k id (retire id slug) t, shape_of-retire id slug (find k t))

pub free_slug-IsTwoLevel :
    (o : Option (ℕ × Category)) (slug : Text) (t : Table Category)
    → IsTwoLevel t
    → IsTwoLevel (free_slug o slug t).1
free_slug-IsTwoLevel none slug t two = two
free_slug-IsTwoLevel (some (id, x)) slug t (distinct, nested) = elim (Bool-cases x.is_deleted) [
  | inl e ↦ rw e (
    IsDistinct-modify id (retire id slug) t distinct,
    IsNested-same t (modify id (retire id slug) t) (λ k. shape_at-retire id slug k t) nested,
  )
  | inr e ↦ rw e (distinct, nested)
]

pub free_slug-find :
    (o : Option (ℕ × Category)) (slug : Text) (t : Table Category) (k : ℕ)
    → shape_at k (free_slug o slug t).1 ≡ shape_at k t
free_slug-find none slug t k = refl
free_slug-find (some (id, x)) slug t k = elim (Bool-cases x.is_deleted) [
  | inl e ↦ rw e (shape_at-retire id slug k t)
  | inr e ↦ rw e refl
]

live-shape :
    (o : Option Category) (x : Category)
    → live true o ≡ some x
    → x.parent_id ≡ none
    → shape_of o ≡ some (none, false)
live-shape none x h p = cc
live-shape (some y) x h p = ground arith

-- What a parent that is accepted is.
pub assert_valid_parent-shape :
    (q : ℕ) (self_id : Option ℕ) (t : Table Category)
    → assert_valid_parent q self_id t ≡ ok tt
    → (shape_at q t ≡ some (none, false))
      × (is_same self_id q ≡ false)
      × (own_checks self_id t ≡ ok tt)
unfolding assert_valid_parent
assert_valid_parent-shape q self_id t h = elim (Bool-cases (is_same self_id q)) [
  | inl e ↦ absurd (err≢ok (rw (e, assert_valid_parent) at h))
  | inr e ↦
      let rest = rw (assert_valid_parent, e) at h in
      elim (Option-cases (live true (find q t))) [
        | inl n ↦ absurd (err≢ok (rw n at rest))
        | inr (x, f) ↦ elim (Option-cases x.parent_id) [
          | inl n ↦ (live-shape (find q t) x f n, e, rw (f, n) at rest)
          | inr (p, g) ↦ absurd (err≢ok (rw (f, g) at rest))
        ]
      ]
]

abbrev pub parent_in : Option (Option ℕ × Bool) → Option ℕ
parent_in none = none
parent_in (some (parent_id, _)) = parent_id

abbrev pub deleted_in : Option (Option ℕ × Bool) → Bool
deleted_in none = true
deleted_in (some (_, is_deleted)) = is_deleted

pub shape-live_child :
    (id : ℕ) (x : Category) → shape_of (some x) ≡ some (some id, false) → is_live_child id x ≡ true
shape-live_child id x h =
    let parent : x.parent_id ≡ some id = ap parent_in h in
    let lives : x.is_deleted ≡ false = ap deleted_in h in rw (parent, lives) (ground arith)

count-live_child :
    (id k : ℕ) (t : Table Category)
    → shape_at k t ≡ some (some id, false)
    → ltb 0 (count (is_live_child id) t) ≡ true
unfolding find count
count-live_child id k [] h = cc
count-live_child id k ((j, x) ∷ t) h = elim (Bool-cases (k == j)) [
  | inl here ↦ let child = shape-live_child id x (rw here at h) in rw child (ground arith)
  | inr there ↦ ground (arith, count-live_child id k t)
]

-- A category without live children stays so.
pub own_checks-childless :
    (id k p : ℕ) (t : Table Category)
    → own_checks (some id) t ≡ ok tt
    → shape_at k t ≡ some (some p, false)
    → (p == id) ≡ false
own_checks-childless id k p t h e = elim (Bool-cases (p == id)) [
  | inr apart ↦ apart
  | inl same ↦
      let at_id : p ≡ id = ground arith in
      let some_child = count-live_child id k t (rw at_id at e) in
      absurd (err≢ok (rw some_child at h))
]

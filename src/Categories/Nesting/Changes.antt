-- ===== src/Categories/Nesting/Changes.antt =====
-- `update` (apps/api/src/modules/categories/categories.service.ts) keeps the two levels.
use mathlib.Core.Option
use kartit.Prelude.{
  ℕ, ◌≡◌, refl, sym, ap, ◌∙◌, Bool, true, false, Option, none, some, arith, ◌==◌, if◌then◌else◌,
  inl, inr, ◌⊎◌, Bool-cases, Option-cases, none≢some,
}
use kartit.Prelude.Table.{Table, find, modify, find-modify, IsDistinct-modify}
use kartit.Result.{ok, ◌>>◌}
use kartit.Shared.Text.{Text}
use kartit.Categories.{
  Category, Catalog, CategoryInput, normalize_parent_id, checked_parent, or_kept, updated,
  free_new_slug, update, update_data, live, find_clash, truthy_text,
}
use kartit.Categories.Nesting.{
  shape_of, shape_at, IsNested, IsTwoLevel, parent_in, free_slug-IsTwoLevel,
  assert_valid_parent-shape, own_checks-childless,
}
use kartit.Categories.Nesting.Removal.{child≢top}
use kartit.Categories.Nesting.Creation.{checked_parent-shape, finish-IsTwoLevel, >>-ok}

-- The shape of a row with a new parent, or with the old one.
data_shape : Option (Option ℕ) → Option (Option ℕ × Bool) → Option (Option ℕ × Bool)
data_shape np none = none
data_shape np (some (parent_id, is_deleted)) = some (or_kept np parent_id, is_deleted)

shape_of-update_data :
    (input : CategoryInput) (o : Option Category)
    → shape_of (Option.map (update_data input) o)
      ≡ data_shape (normalize_parent_id input.parent_id) (shape_of o)
unfolding data_shape
shape_of-update_data input none = refl
shape_of-update_data input (some x) = refl

shape_at-update_data :
    (id k : ℕ) (input : CategoryInput) (t : Table Category)
    → shape_at k (modify id (update_data input) t) ≡ (
        if k == id
        then data_shape (normalize_parent_id input.parent_id) (shape_at k t)
        else shape_at k t)
shape_at-update_data id k input t = elim (Bool-cases (k == id)) [
  | inl e ↦
      ap shape_of (find-modify k id (update_data input) t)
      ∙ rw e (shape_of-update_data input (find k t))
  | inr e ↦ ap shape_of (find-modify k id (update_data input) t) ∙ rw e refl
]

data_shape-parent :
    (np : Option (Option ℕ)) (o : Option (Option ℕ × Bool)) (p : ℕ)
    → data_shape np o ≡ some (some p, false)
    → (o ≡ some (some p, false)) ⊎ (np ≡ some (some p))
unfolding data_shape
data_shape-parent np none p h = cc
data_shape-parent none (some s) p h = inl h
data_shape-parent (some q) (some (parent_id, is_deleted)) p h = inr (ap some (ap parent_in h))

new_parent-apart :
    (np : Option (Option ℕ)) (id p : ℕ) (t : Table Category)
    → checked_parent np (some id) t ≡ ok tt
    → np ≡ some (some p)
    → (p == id) ≡ false
new_parent-apart none id p t h e = cc
new_parent-apart (some none) id p t h e = absurd (none≢some (ap (λ o. or_kept o none) e))
new_parent-apart (some (some q)) id p t h e =
    let same : q ≡ p = cc in
    let apart : (id == q) ≡ false = (assert_valid_parent-shape q (some id) t h).1 in ground arith

-- The parent of another live category is still at the top.
top-kept :
    (np : Option (Option ℕ)) (id k p : ℕ) (t : Table Category)
    → checked_parent np (some id) t ≡ ok tt
    → shape_at k t ≡ some (some p, false)
    → shape_at p t ≡ some (none, false)
    → (if p == id then data_shape np (shape_at p t) else shape_at p t) ≡ some (none, false)
unfolding data_shape
top-kept none id k p t h child top = rw top (ground arith)
top-kept (some none) id k p t h child top = rw top (ground arith)
top-kept (some (some q)) id k p t h child top =
    let childless = (assert_valid_parent-shape q (some id) t h).2 in
    rw (own_checks-childless id k p t childless child) top

updated-IsTwoLevel :
    (id : ℕ) (input : CategoryInput) (t : Table Category)
    → IsTwoLevel t
    → checked_parent (normalize_parent_id input.parent_id) (some id) t ≡ ok tt
    → IsTwoLevel (modify id (update_data input) t)
unfolding IsNested data_shape
updated-IsTwoLevel id input t (distinct, nested) passed = (
  IsDistinct-modify id (update_data input) t distinct,
  λ k p h. shape_at-update_data id p input t ∙ elim (Bool-cases (k == id)) [
    | inr e ↦
        let before : shape_at k t ≡ some (some p, false) =
          rw e at (sym (shape_at-update_data id k input t) ∙ h) in
        top-kept np id k p t passed before (nested k p before)
    | inl e ↦
        let after : data_shape np (shape_at k t) ≡ some (some p, false) =
          rw e at (sym (shape_at-update_data id k input t) ∙ h) in
        elim (data_shape-parent np (shape_at k t) p after) [
          | inl before ↦ rw (itself k p e before (nested k p before)) (nested k p before)
          | inr new ↦
              rw (new_parent-apart np id p t passed new)
                (checked_parent-shape np (some id) t p passed new)
        ]
  ],
)
  where
    np : Option (Option ℕ)
    np = normalize_parent_id input.parent_id

    -- A category is not its own parent.
    itself :
        (k p : ℕ)
        → (k == id) ≡ true
        → shape_at k t ≡ some (some p, false)
        → shape_at p t ≡ some (none, false)
        → (p == id) ≡ false
    itself k p e child top = elim (Bool-cases (p == id)) [
      | inr apart ↦ apart
      | inl same ↦
          let one : k ≡ p = ground arith in
          absurd (child≢top (sym child ∙ ap (λ n. shape_at n t) one ∙ top))
    ]

free_new_slug-IsTwoLevel :
    (id : ℕ) (slug : Option Text) (t : Table Category)
    → IsTwoLevel t
    → IsTwoLevel (free_new_slug id slug t).1
free_new_slug-IsTwoLevel id none t two = two
free_new_slug-IsTwoLevel id (some slug) t two =
    free_slug-IsTwoLevel (find_clash id slug t) slug t two

pub update-IsTwoLevel :
    (id : ℕ) (input : CategoryInput) (c : Catalog)
    → IsTwoLevel c.categories
    → IsTwoLevel (update id input c).1.categories
unfolding update
update-IsTwoLevel id input c two = elim (Option-cases (live false (find id c.categories))) [
  | inl e ↦ rw (update, e) two
  | inr (current, e) ↦
      let slug = truthy_text input.slug in
      let t = (free_new_slug id slug c.categories).1 in
      let freed = (free_new_slug id slug c.categories).0 in
      let check = checked_parent (normalize_parent_id input.parent_id) (some id) t in
      let still = free_new_slug-IsTwoLevel id slug c.categories two in
      rw (update, e)
        (finish-IsTwoLevel (freed >> check) t c (updated id input current t c) still
          λ passed. updated-IsTwoLevel id input t still (>>-ok freed check passed))
]

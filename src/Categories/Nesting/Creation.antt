-- ===== src/Categories/Nesting/Creation.antt =====
-- `create` (apps/api/src/modules/categories/categories.service.ts) keeps the two levels.
use kartit.Prelude.{
  ℕ, ◌≡◌, ◌≢◌, refl, sym, ap, ◌∙◌, subst, Bool, false, Option, none, some, arith, ◌==◌, inl, inr,
  Bool-cases, none≢some, some_inj,
}
use kartit.Prelude.Table.{
  Table, find, find_where, insert, find-insert_ne, find-insert_self, IsDistinct-insert,
}
use kartit.Result.{Result, ok, err, ◌>>◌}
use kartit.Shared.Text.{Text, text_eq}
use kartit.Categories.{
  Category, Catalog, ParentInput, Outcome, normalize_parent_id, checked_parent, or_kept,
  new_category, created, free_slug, finish, create,
}
use kartit.Categories.Nesting.{
  shape_of, shape_at, IsNested, IsTwoLevel, parent_in, free_slug-IsTwoLevel, free_slug-find,
  assert_valid_parent-shape,
}

shape_none : (o : Option Category) → shape_of o ≡ none → o ≡ none
shape_none none h = refl
shape_none (some x) h = cc

-- A name that no row has is not the name of a row.
apart_from_absent :
    (fresh p : ℕ) (t : Table Category) {s : Option ℕ × Bool}
    → find fresh t ≡ none
    → shape_at p t ≡ some s
    → p ≢ fresh
apart_from_absent fresh p t absent h e =
    none≢some (sym (ap shape_of absent) ∙ ap (λ n. shape_at n t) (sym e) ∙ h)

insert-IsTwoLevel :
    (fresh : ℕ) (row : Category) (t : Table Category)
    → find fresh t ≡ none
    → ((p : ℕ) → row.parent_id ≡ some p → shape_at p t ≡ some (none, false))
    → IsTwoLevel t
    → IsTwoLevel (insert fresh row t)
unfolding IsNested
insert-IsTwoLevel fresh row t absent valid (distinct, nested) = (
  IsDistinct-insert fresh row t absent distinct,
  λ k p h. elim (Bool-cases (k == fresh)) [
    | inl e ↦
        let same : k ≡ fresh = ground arith in
        let found = ap shape_of (find-insert_self fresh row t absent) in
        kept p (
          valid p
            (ap parent_in (sym found ∙ ap (λ n. shape_at n (insert fresh row t)) (sym same) ∙ h)))
    | inr e ↦
        let other : k ≢ fresh = λ q. ground arith in
        kept p (nested k p (ap shape_of (sym (find-insert_ne k fresh row t other)) ∙ h))
  ],
)
  where
    kept :
        (p : ℕ)
        → shape_at p t ≡ some (none, false)
        → shape_at p (insert fresh row t) ≡ some (none, false)
    kept p top =
        ap shape_of (find-insert_ne p fresh row t (apart_from_absent fresh p t absent top)) ∙ top

-- What a check of the parent that succeeds says of a new parent.
pub checked_parent-shape :
    (np : Option (Option ℕ)) (self_id : Option ℕ) (t : Table Category) (p : ℕ)
    → checked_parent np self_id t ≡ ok tt
    → np ≡ some (some p)
    → shape_at p t ≡ some (none, false)
checked_parent-shape none self_id t p h e = cc
checked_parent-shape (some none) self_id t p h e = absurd (none≢some (some_inj e))
checked_parent-shape (some (some q)) self_id t p h e =
    let same : q ≡ p = cc in
    subst (λ n. shape_at n t ≡ some (none, false)) same (assert_valid_parent-shape q self_id t h).0

or_kept-none : (np : Option (Option ℕ)) (p : ℕ) → or_kept np none ≡ some p → np ≡ some (some p)
or_kept-none none p h = cc
or_kept-none (some o) p h = ap some h

pub finish-IsTwoLevel :
    (r : Result (Unit {0})) (t : Table Category) (c : Catalog) (next : Unit {0} → Outcome)
    → IsTwoLevel t
    → (r ≡ ok tt → IsTwoLevel (next tt).1.categories)
    → IsTwoLevel (finish r t c next).1.categories
finish-IsTwoLevel (err why) t c next two rest = two
finish-IsTwoLevel (ok u) t c next two rest = rest refl

pub >>-ok : (r : Result (Unit {0})) (s : Result (Unit {0})) → (r >> s) ≡ ok tt → s ≡ ok tt
>>-ok (ok u) s h = h
>>-ok (err why) s h = cc

pub create-IsTwoLevel :
    (fresh : ℕ) (slug name : Text) (parent_input : ParentInput) (is_active : Bool) (c : Catalog)
    → find fresh c.categories ≡ none
    → IsTwoLevel c.categories
    → IsTwoLevel (create fresh slug name parent_input is_active c).1.categories
unfolding create
create-IsTwoLevel fresh slug name parent_input is_active c absent two =
    let holder = find_where (λ x. text_eq x.slug slug) c.categories in
    let t = (free_slug holder slug c.categories).1 in
    let still = free_slug-IsTwoLevel holder slug c.categories two in
    let gone =
      shape_none (find fresh t)
        (free_slug-find holder slug c.categories fresh ∙ ap shape_of absent) in
    let np = normalize_parent_id parent_input in
    let freed = (free_slug holder slug c.categories).0 in
    let check = checked_parent np none t in
    let row = new_category slug name parent_input is_active in
    finish-IsTwoLevel (freed >> check) t c (created fresh row t c) still λ passed.
      insert-IsTwoLevel fresh row t gone
        (λ p e. checked_parent-shape np none t p (>>-ok freed check passed) (or_kept-none np p e))
        still

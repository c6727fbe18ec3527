-- ===== src/Categories/Nesting/Runs.antt =====
-- create, update and remove (apps/api/src/modules/categories/categories.service.ts), one after another.
use kartit.Prelude.{ℕ, ◌≡◌, Bool, none, [], inl, inr, Option-cases}
use kartit.Prelude.Table.{find, IsDistinct}
use kartit.Result.{}
use kartit.Shared.Text.{Text}
use kartit.Categories.{Catalog, CategoryInput, ParentInput, create, update, remove}
use kartit.Categories.Nesting.{IsNested, IsTwoLevel}
use kartit.Categories.Nesting.Removal.{removed-IsTwoLevel}
use kartit.Categories.Nesting.Creation.{create-IsTwoLevel}
use kartit.Categories.Nesting.Changes.{update-IsTwoLevel}

remove-IsTwoLevel :
    (id : ℕ) (c : Catalog) → IsTwoLevel c.categories → IsTwoLevel (remove id c).1.categories
unfolding remove
remove-IsTwoLevel id c two = elim (Option-cases (find id c.categories)) [
  | inl e ↦ rw (remove, e) two
  | inr (x, e) ↦ rw (remove, e) (removed-IsTwoLevel id c.categories two)
]

pub data Call : Type 0 where
  create_call : ℕ → Text → Text → ParentInput → Bool → Call
  update_call : ℕ → CategoryInput → Call
  remove_call : ℕ → Call

abbrev pub apply : Call → Catalog → Catalog
apply (create_call fresh slug name parent_input is_active) c =
    (create fresh slug name parent_input is_active c).1
apply (update_call id input) c = (update id input c).1
apply (remove_call id) c = (remove id c).1

-- The id of a new category is new.
abbrev pub IsFresh : Call → Catalog → Type 0
IsFresh (create_call fresh slug name parent_input is_active) c = find fresh c.categories ≡ none
IsFresh (update_call id input) c = Unit
IsFresh (remove_call id) c = Unit

-- The catalogues that calls, failed ones too, lead to.
pub data IsReached : Catalog → Type 0 where
  no_category : (c : Catalog) → c.categories ≡ [] → IsReached c
  called : (call : Call) {c : Catalog} → IsReached c → IsFresh call c → IsReached (apply call c)

-- Whatever calls are made one after another, ids are distinct, and the parent of a live category is live and
-- has no parent itself.
pub IsReached-IsTwoLevel : {c : Catalog} → IsReached c → IsTwoLevel c.categories
unfolding IsNested IsDistinct find
IsReached-IsTwoLevel (no_category c e) = rw e (tt, λ k p h. cc)
IsReached-IsTwoLevel
      (called (create_call fresh slug name parent_input is_active) {c} reached absent) =
    create-IsTwoLevel fresh slug name parent_input is_active c absent (IsReached-IsTwoLevel reached)
IsReached-IsTwoLevel (called (update_call id input) {c} reached _) =
    update-IsTwoLevel id input c (IsReached-IsTwoLevel reached)
IsReached-IsTwoLevel (called (remove_call id) {c} reached _) =
    remove-IsTwoLevel id c (IsReached-IsTwoLevel reached)

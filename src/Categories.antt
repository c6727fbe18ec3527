-- ===== src/Categories.antt =====
-- `categoriesService` (apps/api/src/modules/categories/categories.service.ts): create, update and remove. The
-- statements of `create` and `update` are no transaction, so what is written before an error stays. An
-- answer comes with the keys of the caches that the call deletes.
pub mod Nesting
pub mod Tests
use kartit.Prelude.{
  ℕ, ◌+◌, Bool, true, false, not, ◌&&◌, ◌||◌, Option, none, some, List, [], ◌∷◌, ◌++◌, map, ltb,
  any, ◌==◌, if◌then◌else◌,
}
use kartit.Prelude.Table.{Table, find, find_where, count, modify, insert}
use kartit.Result.{
  Result, ok, err, Error, ◌>>◌, throw_if, bad_request, not_found, conflict, not_found_code,
  record_not_found, invalid_parent, parent_not_found, max_depth, has_subcategories, slug_taken,
}
use kartit.Shared.Text.{Text, codes, text_eq}
use kartit.Shared.Decimal.{to_text}

pub record Category : Type 0 where
  pub slug : Text
  pub name : Text
  pub parent_id : Option ℕ
  pub is_active : Bool
  -- `deletedAt` is set
  pub is_deleted : Bool

-- What a removal reads and writes of a product.
pub record CategoryProduct : Type 0 where
  pub slug : Text
  pub category_id : ℕ
  pub is_active : Bool
  pub is_deleted : Bool

pub record Catalog : Type 0 where
  pub categories : Table Category
  pub products : Table CategoryProduct

pub data CacheKey : Type 0 where
  category_list product_list : CacheKey
  category_by_id product_by_id : ℕ → CacheKey
  category_by_slug product_by_slug : Text → CacheKey

-- `input.parentId`: not given, one of the three spellings of no parent, or an id.
pub data ParentInput : Type 0 where
  undefined null empty_text null_text : ParentInput
  parent : ℕ → ParentInput

-- Where the result is `none`, the parent stays as it is.
abbrev pub normalize_parent_id : ParentInput → Option (Option ℕ)
normalize_parent_id undefined = none
normalize_parent_id null = some none
normalize_parent_id empty_text = some none
normalize_parent_id null_text = some none
normalize_parent_id (parent id) = some (some id)

abbrev pub is_same : Option ℕ → ℕ → Bool
is_same none id = false
is_same (some j) id = j == id

abbrev pub is_live_child : ℕ → Category → Bool
is_live_child id c = is_same c.parent_id id && not c.is_deleted

abbrev pub live : Bool → Option Category → Option Category
live only_active none = none
live only_active (some c) =
    if not c.is_deleted && (c.is_active || not only_active) then some c else none

abbrev pub own_checks : Option ℕ → Table Category → Result (Unit {0})
own_checks none t = ok tt
own_checks (some self_id) t =
    throw_if (ltb 0 (count (is_live_child self_id) t)) (bad_request has_subcategories)

unfoldable pub assert_valid_parent : ℕ → Option ℕ → Table Category → Result (Unit {0})
assert_valid_parent parent_id self_id t =
    throw_if (is_same self_id parent_id) (bad_request invalid_parent)
    >> elim (live true (find parent_id t)) [
      | none ↦ err (not_found parent_not_found)
      | some c ↦ elim c.parent_id [
        | some _ ↦ err (bad_request max_depth)
        | none ↦ own_checks self_id t
      ]
    ]

abbrev pub checked_parent : Option (Option ℕ) → Option ℕ → Table Category → Result (Unit {0})
checked_parent none self_id t = ok tt
checked_parent (some none) self_id t = ok tt
checked_parent (some (some id)) self_id t = assert_valid_parent id self_id t

pub record CategoryInput : Type 0 where
  pub slug : Option Text
  pub name : Option Text
  pub parent_id : ParentInput
  pub is_active : Option Bool

abbrev pub or_kept : {A : Type 0} → Option A → A → A
or_kept none a = a
or_kept (some b) a = b

-- `deleted-<id>-<slug>`
abbrev pub retired_slug : ℕ → Text → Text
retired_slug id slug = codes "deleted-" ++ (to_text id ++ (b'-' ∷ slug))

abbrev pub retire : ℕ → Text → Category → Category
retire id slug c = record c { slug = retired_slug id slug }

abbrev pub truthy_text : Option Text → Option Text
truthy_text none = none
truthy_text (some []) = none
truthy_text (some (c ∷ s)) = some (c ∷ s)

-- A row that has the slug: its slug is taken from it where it is deleted.
abbrev pub free_slug :
    Option (ℕ × Category) → Text → Table Category → Result (Unit {0}) × Table Category
free_slug none slug t = (ok tt, t)
free_slug (some (id, c)) slug t =
    if c.is_deleted then (ok tt, modify id (retire id slug) t) else (err (conflict slug_taken), t)

abbrev pub Outcome : Type 0
Outcome = Result (List CacheKey) × Catalog

abbrev pub finish : Result (Unit {0}) → Table Category → Catalog → (Unit {0} → Outcome) → Outcome
finish (err why) t c next = (err why, record c { categories = t })
finish (ok _) t c next = next tt

abbrev pub new_category : Text → Text → ParentInput → Bool → Category
new_category slug name parent_input is_active = record {
  slug = slug;
  name = name;
  parent_id = or_kept (normalize_parent_id parent_input) none;
  is_active = is_active;
  is_deleted = false;
}

abbrev pub created : ℕ → Category → Table Category → Catalog → Unit {0} → Outcome
created fresh row t c _ = (ok (category_list ∷ []), record c { categories = insert fresh row t })

-- `input.slug`, `input.name` and `input.isActive` of `create` are always there.
unfoldable pub create : ℕ → Text → Text → ParentInput → Bool → Catalog → Outcome
create fresh slug name parent_input is_active c =
    let holder = find_where (λ x. text_eq x.slug slug) c.categories in
    let (slug_free, t) = free_slug holder slug c.categories in
    finish (slug_free >> checked_parent (normalize_parent_id parent_input) none t) t c
      (created fresh (new_category slug name parent_input is_active) t c)

abbrev pub update_data : CategoryInput → Category → Category
update_data input x = record x {
  slug = or_kept input.slug x.slug;
  name = or_kept input.name x.name;
  parent_id = or_kept (normalize_parent_id input.parent_id) x.parent_id;
  is_active = or_kept input.is_active x.is_active;
}

-- `findFirst({ where: { slug, NOT: { id } } })`
unfoldable pub find_clash : ℕ → Text → Table Category → Option (ℕ × Category)
find_clash id slug [] = none
find_clash id slug ((j, x) ∷ t) =
    let rest = find_clash id slug t in
    if text_eq x.slug slug && not (j == id) then some (j, x) else rest

abbrev pub free_new_slug : ℕ → Option Text → Table Category → Result (Unit {0}) × Table Category
free_new_slug id none t = (ok tt, t)
free_new_slug id (some slug) t = free_slug (find_clash id slug t) slug t

abbrev pub slug_keys : Option Text → Text → List CacheKey
slug_keys none old = []
slug_keys (some slug) old =
    if text_eq slug old then [] else category_by_slug old ∷ category_by_slug slug ∷ []

abbrev pub updated : ℕ → CategoryInput → Category → Table Category → Catalog → Unit {0} → Outcome
updated id input current t c _ = (
  ok (category_list ∷ category_by_id id ∷ slug_keys (truthy_text input.slug) current.slug),
  record c { categories = modify id (update_data input) t },
)

unfoldable pub update : ℕ → CategoryInput → Catalog → Outcome
update id input c = elim (live false (find id c.categories)) [
  | none ↦ (err (not_found not_found_code), c)
  | some current ↦
      let (slug_free, t) = free_new_slug id (truthy_text input.slug) c.categories in
      finish (slug_free >> checked_parent (normalize_parent_id input.parent_id) (some id) t) t c
        (updated id input current t c)
]

-- The ids of the live children.
unfoldable pub child_ids : ℕ → Table Category → List ℕ
child_ids id [] = []
child_ids id ((j, x) ∷ t) =
    let rest = child_ids id t in if is_live_child id x then j ∷ rest else rest

unfoldable pub soft_delete_in : List ℕ → Table Category → Table Category
soft_delete_in ids [] = []
soft_delete_in ids ((j, x) ∷ t) =
    (j, if any (◌==◌ j) ids then record x { is_deleted = true; is_active = false } else x)
    ∷ soft_delete_in ids t

abbrev pub soft_delete : Category → Category
soft_delete x = record x { is_deleted = true; is_active = false }

abbrev pub is_affected : List ℕ → CategoryProduct → Bool
is_affected ids p = any (◌==◌ p.category_id) ids && not p.is_deleted

unfoldable pub soft_delete_products : List ℕ → Table CategoryProduct → Table CategoryProduct
soft_delete_products ids [] = []
soft_delete_products ids ((j, p) ∷ t) =
    (j, if is_affected ids p then record p { is_deleted = true; is_active = false } else p)
    ∷ soft_delete_products ids t

unfoldable pub product_keys : List ℕ → Table CategoryProduct → List CacheKey
product_keys ids [] = []
product_keys ids ((j, p) ∷ t) =
    let rest = product_keys ids t in
    if is_affected ids p then product_by_id j ∷ product_by_slug p.slug ∷ rest else rest

abbrev pub slug_key : Option Category → List CacheKey
slug_key none = []
slug_key (some x) = category_by_slug x.slug ∷ []

-- A row that is not there is P2025, and the transaction is rolled back.
unfoldable pub remove : ℕ → Catalog → Outcome
remove id c = elim (find id c.categories) [
  | none ↦ (err record_not_found, c)
  | some _ ↦
      let children = child_ids id c.categories in
      let ids = id ∷ children in
      (
        ok (
            category_list ∷ category_by_id id ∷ slug_key (live false (find id c.categories))
            ++ (product_list ∷ product_keys ids c.products)),
        record {
          categories = modify id soft_delete (soft_delete_in children c.categories);
          products = soft_delete_products ids c.products;
        },
      )
]

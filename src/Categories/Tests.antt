-- ===== src/Categories/Tests.antt =====
-- A shop with shoes, and boots below them.
use kartit.Prelude.{◌≡◌, refl, true, false, none, some, [], ◌∷◌}
use kartit.Prelude.Table.{find, find_where, modify, count}
use kartit.Result.{ok, err, bad_request, max_depth, has_subcategories, conflict, slug_taken}
use kartit.Shared.Text.{codes}
use kartit.Shared.Decimal.{to_text, emit_digits}
use kartit.Categories.{
  Catalog, CategoryProduct, CategoryInput, undefined, null, parent, category_list, product_list,
  category_by_id, category_by_slug, product_by_id, product_by_slug, create, update, remove,
  assert_valid_parent, child_ids, soft_delete_in, soft_delete_products, product_keys,
}
use kartit.Categories.Nesting.{IsTwoLevel}
use kartit.Categories.Nesting.Runs.{
  create_call, remove_call, apply, IsReached, no_category, called, IsReached-IsTwoLevel,
}

abbrev shoe : CategoryProduct
shoe = record { slug = codes "boot"; category_id = 2; is_active = true; is_deleted = false }

abbrev bare : Catalog
bare = record { categories = []; products = (9, shoe) ∷ [] }

abbrev with_shoes : Catalog
with_shoes = apply (create_call 1 (codes "shoes") (codes "Shoes") undefined true) bare

abbrev with_boots : Catalog
with_boots = apply (create_call 2 (codes "boots") (codes "Boots") (parent 1) true) with_shoes

-- A third level is refused.
third_level :
    (create 3 (codes "high") (codes "High") (parent 2) true with_boots).0
    ≡ err (bad_request max_depth)
unfolding create find_where find assert_valid_parent count
third_level = refl

abbrev move_shoes : CategoryInput
move_shoes = record { slug = none; name = none; parent_id = parent 3; is_active = none }

abbrev with_hats : Catalog
with_hats = apply (create_call 3 (codes "hats") (codes "Hats") null true) with_boots

-- A category with children cannot become a child.
no_push : (update 1 move_shoes with_hats).0 ≡ err (bad_request has_subcategories)
unfolding create update find_where find assert_valid_parent count
no_push = refl

taken : (create 4 (codes "hats") (codes "Hats") null true with_hats).0 ≡ err (conflict slug_taken)
unfolding create find_where find assert_valid_parent count
taken = refl

-- The entries of a removed child stay in the cache, where they are found by its id and by its slug.
removed_keys :
    (remove 1 with_boots).0
    ≡ ok (
        category_list
        ∷ category_by_id 1
        ∷ category_by_slug (codes "shoes")
        ∷ product_list
        ∷ product_by_id 9
        ∷ product_by_slug (codes "boot")
        ∷ [])
unfolding create remove find_where find assert_valid_parent count child_ids product_keys
removed_keys = refl

abbrev rename_shoes : CategoryInput
rename_shoes = record {
  slug = none;
  name = some (codes "All shoes");
  parent_id = undefined;
  is_active = none;
}

-- A name that changes under the same slug leaves the entry by the slug in the cache.
renamed_keys : (update 1 rename_shoes with_boots).0 ≡ ok (category_list ∷ category_by_id 1 ∷ [])
unfolding create update find_where find assert_valid_parent count
renamed_keys = refl

-- A slug that is refused for its parent is taken from the deleted category all the same.
abbrev without_hats : Catalog
without_hats = apply (remove_call 3) with_hats

slug_lost :
    (create 5 (codes "hats") (codes "Hats") (parent 2) true without_hats).0
    ≡ err (bad_request max_depth)
unfolding create remove find_where find assert_valid_parent count child_ids soft_delete_in modify
    soft_delete_products to_text emit_digits
slug_lost = refl

boots-IsReached : IsReached with_boots
unfolding create find_where find assert_valid_parent count
boots-IsReached =
    called (create_call 2 (codes "boots") (codes "Boots") (parent 1) true)
      (called (create_call 1 (codes "shoes") (codes "Shoes") undefined true) (no_category bare refl)
        refl)
      refl

IsReached-IsTwoLevel_example : IsTwoLevel (apply (remove_call 1) with_boots).categories
IsReached-IsTwoLevel_example = IsReached-IsTwoLevel (called (remove_call 1) boots-IsReached tt)

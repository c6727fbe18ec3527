-- ===== src/Idempotency/Hash.antt =====
-- The hash of a request (apps/api/src/middlewares/idempotency-helpers.ts). `quote` is JSON.stringify of a
-- text and `sha256` the hexadecimal digest, both of the runtime; a number is held as the text that
-- JSON.stringify makes of it.
pub mod Order
use kartit.Prelude.{
  Bool, true, false, ◌&&◌, ◌||◌, Option, none, some, List, [], ◌∷◌, ◌++◌, map, ltb, ◌==◌,
  if◌then◌else◌,
}
use kartit.Shared.Text.{Text, codes, text_eq}

mutual
  pub data Json : Type 0 where
    null : Json
    truth : Bool → Json
    figure : Text → Json
    letters : Text → Json
    array : Elements → Json
    object : Fields → Json

  pub data Elements : Type 0 where
    done : Elements
    element : Json → Elements → Elements

  -- Keys and values, in the order in which they were written.
  pub data Fields : Type 0 where
    empty : Fields
    field : Text → Json → Fields → Fields

-- The order of `sort`: by character codes, a prefix first.
abbrev pub before : Text → Text → Bool
before [] t = true
before (a ∷ s) [] = false
before (a ∷ s) (b ∷ t) = ltb a b || ((a == b) && before s t)

unfoldable pub insert_sorted : Text → List Text → List Text
insert_sorted k [] = k ∷ []
insert_sorted k (j ∷ keys) =
    let rest = insert_sorted k keys in if before k j then k ∷ j ∷ keys else j ∷ rest

unfoldable pub sorted : List Text → List Text
sorted [] = []
sorted (k ∷ keys) = insert_sorted k (sorted keys)

-- `join(",")`
unfoldable pub join_commas : List Text → Text
join_commas [] = []
join_commas (s ∷ []) = s
join_commas (s ∷ t ∷ parts) = s ++ (b',' ∷ join_commas (t ∷ parts))

-- A field's name, and the text of its value.
abbrev pub Shown : Type 0
Shown = List (Text × Text)

unfoldable pub shown_keys : Shown → List Text
shown_keys [] = []
shown_keys ((k, _) ∷ fields) = k ∷ shown_keys fields

unfoldable pub shown_value : Text → Shown → Text
shown_value k [] = codes "undefined"
shown_value k ((j, v) ∷ fields) = let rest = shown_value k fields in if text_eq k j then v else rest

module _ (quote : Text → Text) where
  abbrev pub shown_field : Shown → Text → Text
  shown_field fields k = quote k ++ (b':' ∷ shown_value k fields)

  unfoldable pub shown_object : Shown → Text
  shown_object fields =
      codes "{" ++ join_commas (map (shown_field fields) (sorted (shown_keys fields))) ++ codes "}"

  unfoldable mutual
    pub stable_stringify : Json → Text
    stable_stringify null = codes "null"
    stable_stringify (truth true) = codes "true"
    stable_stringify (truth false) = codes "false"
    stable_stringify (figure s) = s
    stable_stringify (letters s) = quote s
    stable_stringify (array elements) =
        codes "[" ++ join_commas (stringify_elements elements) ++ codes "]"
    stable_stringify (object fields) = shown_object (stringify_fields fields)

    pub stringify_elements : Elements → List Text
    stringify_elements done = []
    stringify_elements (element x xs) = stable_stringify x ∷ stringify_elements xs

    pub stringify_fields : Fields → Shown
    stringify_fields empty = []
    stringify_fields (field k x fields) = (k, stable_stringify x) ∷ stringify_fields fields

  module _ (sha256 : Text → Text) where
    -- `body ?? {}`
    unfoldable pub hash_body : Option Json → Text
    hash_body none = sha256 (stable_stringify (object empty))
    hash_body (some null) = sha256 (stable_stringify (object empty))
    hash_body (some (truth b)) = sha256 (stable_stringify (truth b))
    hash_body (some (figure s)) = sha256 (stable_stringify (figure s))
    hash_body (some (letters s)) = sha256 (stable_stringify (letters s))
    hash_body (some (array xs)) = sha256 (stable_stringify (array xs))
    hash_body (some (object fields)) = sha256 (stable_stringify (object fields))

    unfoldable pub hash_request : Text → Text → Option Json → Text
    hash_request user key body = sha256 (user ++ (b':' ∷ key ++ (b':' ∷ hash_body body)))

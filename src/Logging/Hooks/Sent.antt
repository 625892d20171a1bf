-- ===== src/Logging/Hooks/Sent.antt =====
-- Who may see an object, and which hooks send.
use text.Mathlib.Text.{◌==◌ as str_eq}
use waldur_core.Prelude.{
  ◌≡◌, refl, ◌∙◌, ap, Bool, true, false, Option, none, some, List, [], ◌∷◌, String, arith,
  if◌then◌else◌, eq_iff,
}
use waldur_core.Logging.Hooks.{
  Dict, lookup, put, put_each, permitted_from, get_permitted_objects_uuids,
}

lookup-put :
    (key field : String) (value : List String) (items : Dict (List String))
    → lookup key (put field value items)
      ≡ (if str_eq field key then some value else lookup key items)
unfolding lookup put
lookup-put key field value [] = ground arith
lookup-put key field value ((k, v) ∷ items) =
    ground (arith, lookup-put key field value items, eq_iff k field, eq_iff k key, eq_iff field key)

unfoldable pub last_of : Option (List String) → Option (List String) → Option (List String)
last_of a none = a
last_of a (some b) = some b

-- The last item of a field.
unfoldable pub last_item : String → Dict (List String) → Option (List String)
unfolding last_of
last_item field [] = none
last_item field ((k, v) ∷ items) =
    last_of (if str_eq k field then some v else none) (last_item field items)

-- What the last of the models that have a field gives for it.
unfoldable pub last_given : String → List (Dict (List String)) → Option (List String)
unfolding last_item last_of
last_given field [] = none
last_given field (model ∷ models) = last_of (last_item field model) (last_given field models)

last_of_assoc : (a b c : Option (List String)) → last_of (last_of a b) c ≡ last_of a (last_of b c)
unfolding last_of
last_of_assoc a b none = refl
last_of_assoc a b (some c) = refl

choice :
    (b : Bool) (v : List String) (o : Option (List String))
    → (if b then some v else o) ≡ last_of o (if b then some v else none)
unfolding last_of
choice true v o = refl
choice false v o = refl

lookup-put_each :
    (field : String) (items permitted : Dict (List String))
    → lookup field (put_each items permitted)
      ≡ last_of (lookup field permitted) (last_item field items)
unfolding put_each last_item last_of
lookup-put_each field [] permitted = refl
lookup-put_each field ((k, v) ∷ items) permitted =
    lookup-put_each field items (put k v permitted)
    ∙ ap (λ o. last_of o (last_item field items))
        (lookup-put field k v permitted ∙ choice (str_eq k field) v (lookup field permitted))
    ∙ last_of_assoc (lookup field permitted) _ (last_item field items)

lookup-permitted_from :
    (field : String) (models : List (Dict (List String))) (permitted : Dict (List String))
    → lookup field (permitted_from models permitted)
      ≡ last_of (lookup field permitted) (last_given field models)
unfolding permitted_from last_given last_of
lookup-permitted_from field [] permitted = refl
lookup-permitted_from field (model ∷ models) permitted =
    lookup-permitted_from field models (put_each model permitted)
    ∙ ap (λ o. last_of o (last_given field models)) (lookup-put_each field model permitted)
    ∙ last_of_assoc (lookup field permitted) (last_item field model) (last_given field models)

last_of-none : (o : Option (List String)) → last_of none o ≡ o
unfolding last_of
last_of-none none = refl
last_of-none (some a) = refl

-- For each field get_permitted_objects_uuids has what the last model that gives the field gives
-- for it, and nothing if no model does.
pub lookup-get_permitted_objects_uuids :
    (field : String) (models : List (Dict (List String)))
    → lookup field (get_permitted_objects_uuids models) ≡ last_given field models
unfolding get_permitted_objects_uuids lookup
lookup-get_permitted_objects_uuids field models =
    lookup-permitted_from field models [] ∙ last_of-none (last_given field models)

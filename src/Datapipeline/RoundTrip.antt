-- ===== src/Datapipeline/RoundTrip.antt =====
-- Definitions that are translated to the API and back.

use m_awsexp.Common.{
  lookup, lookup, List, Option, Str, All, ◌≡◌, some, ◌∷◌, none, refl, str_eq, [], false, ◌∙◌, ap,
}
use m_awsexp.Datapipeline.Translator.{
  Element, definition_to_api_objects, object_definition, Items, translate_elements, ApiObject,
  Translation, with_element, translated, api_object, id_key, api_to_objects_definition, one, text,
  missing_id, name_key, missing_objects, name_or, sort_items, api_to_values_definition,
  definition_to_parameter_values,
}
use m_awsexp.Datapipeline.Dictionary.{
  sort_items_lem, Distinct, lookup-fields_of-none, restored_at, lookup-fields_of,
}

-- The dictionary of an element: each key once, and `id` and `name` apart.
abbrev pub IsElement : Element → Type 0
IsElement e = Distinct e.items × (lookup id_key e.items ≡ none) × (lookup name_key e.items ≡ none)

-- What comes back of an element.
abbrev pub Restores : Element → Items → Type 0
Restores e d =
    (id : Str) × (e.id ≡ some id)
    × (lookup id_key d ≡ some (one (text id)))
    × (lookup name_key d ≡ some (one (text (name_or e.name id))))
    × ((k : Str)
        → str_eq id_key k ≡ false
        → str_eq name_key k ≡ false
        → lookup k d ≡ restored_at (lookup k e.items))

abbrev pub AllRestored : List Element → List Items → Type 0
AllRestored [] [] = Unit
AllRestored [] (d ∷ ds) = ⊥
AllRestored (e ∷ es) [] = ⊥
AllRestored (e ∷ es) (d ∷ ds) = Restores e d × AllRestored es ds

object_definition-Restores :
    (e : Element) (id : Str)
    → e.id ≡ some id
    → IsElement e
    → Restores e (object_definition (api_object e id))
unfolding object_definition lookup
object_definition-Restores e id found (distinct, no_id, no_name) =
    let (sorted, same) = sort_items_lem e.items distinct in
    let start = (id_key, one (text id)) ∷ (name_key, one (text (name_or e.name id))) ∷ [] in
    (
      id,
      found,
      lookup-fields_of-none (sort_items e.items) id_key start (same id_key ∙ no_id),
      lookup-fields_of-none (sort_items e.items) name_key start (same name_key ∙ no_name),
      λ k not_id not_name.
          lookup-fields_of (sort_items e.items) k start sorted (rw (not_id, not_name))
          ∙ ap restored_at (same k),
    )

with_element-inversion :
    (e : Element) (o : Option Str) (t : Translation (List ApiObject)) (api_objects : List ApiObject)
    → with_element e o t ≡ translated api_objects
    → (id : Str) × (rest : List ApiObject) × (o ≡ some id)
      × (t ≡ translated rest)
      × (api_objects ≡ api_object e id ∷ rest)
with_element-inversion e none t api_objects h = cc
with_element-inversion e (some id) (translated rest) api_objects h = (id, rest, refl, refl, cc)
with_element-inversion e (some id) missing_objects api_objects h = cc
with_element-inversion e (some id) (missing_id f) api_objects h = cc

translate_elements-AllRestored :
    (elements : List Element) (api_objects : List ApiObject)
    → All IsElement elements
    → translate_elements elements ≡ translated api_objects
    → AllRestored elements (api_to_objects_definition api_objects)
unfolding translate_elements
translate_elements-AllRestored [] [] h e = tt
translate_elements-AllRestored [] (o ∷ os) h e = cc
translate_elements-AllRestored (x ∷ xs) api_objects (h, hs) e =
    let (id, rest, found, translation, same) =
      with_element-inversion x x.id (translate_elements xs) api_objects e in
    rw same (
      object_definition-Restores x id found h,
      translate_elements-AllRestored xs rest hs translation,
    )

-- If a definition is translated, then its objects come back with their ids and names, the name
-- being the id where there was none, and with the value of every other key: but that a list of one
-- item is that item, and an empty list is lost.
pub definition_to_api_objects-AllRestored :
    (elements : List Element) (api_objects : List ApiObject)
    → All IsElement elements
    → definition_to_api_objects (some elements) ≡ translated api_objects
    → AllRestored elements (api_to_objects_definition api_objects)
unfolding definition_to_api_objects
definition_to_api_objects-AllRestored elements api_objects h e =
    translate_elements-AllRestored elements api_objects h e

-- The values of a definition come back in the same way.
pub api_to_values_definition-restored :
    (values : Items) (k : Str)
    → Distinct values
    → lookup k (api_to_values_definition (definition_to_parameter_values values))
      ≡ restored_at (lookup k values)
unfolding api_to_values_definition definition_to_parameter_values lookup
api_to_values_definition-restored values k distinct = lookup-fields_of values k [] distinct refl

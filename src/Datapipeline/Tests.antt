-- ===== src/Datapipeline/Tests.antt =====
-- A pipeline definition there and back.
use m_awsexp.Common.{lookup, refl, some, ◌∷◌, codes, none, [], ◌≡◌}
use m_awsexp.Datapipeline.Translator.{
  Element, definition_to_api_objects, ApiObject, one, convert_single_field, text,
  api_to_objects_definition, translated, missing_id, ref, many, fields_of, sort_items,
}
use m_awsexp.Datapipeline.RoundTrip.{AllRestored, IsElement, definition_to_api_objects-AllRestored}
use m_awsexp.Datapipeline.Parameters.{Parameter, parameter_definition, parameter_object}

abbrev schedule : Element
schedule = record {
  id = some (codes "S");
  name = none;
  items =
      (codes "type", one (text (codes "Schedule")))
      ∷ (codes "role", one (ref (codes "R")))
      ∷ (codes "step", many (text (codes "b") ∷ text (codes "a") ∷ []))
      ∷ (codes "once", many (text (codes "c") ∷ []))
      ∷ (codes "never", many [])
      ∷ [];
}

abbrev schedule_object : ApiObject
schedule_object = record {
  id = codes "S";
  name = codes "S";
  fields =
      convert_single_field (codes "once") (text (codes "c"))
      ∷ convert_single_field (codes "role") (ref (codes "R"))
      ∷ convert_single_field (codes "step") (text (codes "b"))
      ∷ convert_single_field (codes "step") (text (codes "a"))
      ∷ convert_single_field (codes "type") (text (codes "Schedule"))
      ∷ [];
}

schedule_translated :
    definition_to_api_objects (some (schedule ∷ [])) ≡ translated (schedule_object ∷ [])
unfolding definition_to_api_objects
schedule_translated = refl

missing_id_example :
    let nameless = record schedule { id = none } in
    definition_to_api_objects (some (schedule ∷ nameless ∷ [])) ≡ missing_id nameless
unfolding definition_to_api_objects
missing_id_example = refl

schedule-IsElement : IsElement schedule
unfolding lookup
schedule-IsElement = ((refl, (refl, (refl, (refl, (refl, tt))))), refl, refl)

definition_to_api_objects-AllRestored_example :
    AllRestored (schedule ∷ []) (api_to_objects_definition (schedule_object ∷ []))
definition_to_api_objects-AllRestored_example =
    definition_to_api_objects-AllRestored (schedule ∷ []) (schedule_object ∷ [])
      (schedule-IsElement, tt) schedule_translated

abbrev parameter : Parameter
parameter = record {
  id = some (codes "p");
  items =
      (codes "type", one (text (codes "String"))) ∷ (codes "default", one (text (codes "x"))) ∷ [];
}

-- A reference in a parameter does not come back.
reference_example :
    parameter_definition (
      parameter_object
        (record parameter { items = (codes "default", one (ref (codes "R"))) ∷ [] })
        (codes "p"))
    ≡ none
unfolding parameter_definition fields_of sort_items
reference_example = refl

-- ===== src/Datapipeline/Parameters.antt =====
-- The parameter objects of awscli/customizations/datapipeline/translator.py, and api_to_definition.
use mathlib.Core.Option
use m_awsexp.Common.{List, Str, Option, ◌∷◌, some, none, []}
use m_awsexp.Datapipeline.Translator.{
  add_value, object_definition, fields_of, sort_items, Items, api_to_values_definition, ApiObject,
  Field, one, api_to_objects_definition, id_key, text, ref,
}

-- An element of `parameters`: its `id`, if any, and its other items, the name among them.
pub record Parameter : Type 0 where
  pub id : Option Str
  pub items : Items

pub record ParameterObject : Type 0 where
  pub id : Str
  pub attributes : List Field

pub data ParameterTranslation : Type 0 where
  parameters_translated : List ParameterObject → ParameterTranslation
  parameter_without_id : Parameter → ParameterTranslation

abbrev pub parameter_object : Parameter → Str → ParameterObject
parameter_object element parameter_id = record {
  id = parameter_id;
  attributes = fields_of (sort_items element.items);
}

-- One round of the loop of definition_to_api_parameters, before the rounds to come.
abbrev pub with_parameter : Parameter → Option Str → ParameterTranslation → ParameterTranslation
with_parameter element none rest = parameter_without_id element
with_parameter element (some parameter_id) (parameters_translated parameter_objects) =
    parameters_translated (parameter_object element parameter_id ∷ parameter_objects)
with_parameter element (some parameter_id) (parameter_without_id e) = parameter_without_id e

unfoldable pub translate_parameters : List Parameter → ParameterTranslation
unfolding sort_items fields_of
translate_parameters [] = parameters_translated []
translate_parameters (element ∷ elements) =
    with_parameter element element.id (translate_parameters elements)

-- definition_to_api_parameters, of definition['parameters']; `none` is None
abbrev pub definition_to_api_parameters : Option (List Parameter) → Option ParameterTranslation
definition_to_api_parameters parameters = Option.map translate_parameters parameters

-- The loop over the attributes; `none` is the KeyError of an attribute without a stringValue.
unfoldable pub add_attributes : List Field → Items → Option Items
unfolding add_value
add_attributes [] current = some current
add_attributes (attribute ∷ attributes) current =
    let rest = add_attributes attributes (add_value attribute.key attribute.value current) in
    elim (attribute.value) [ text s ↦ rest | ref s ↦ none ]

unfoldable pub parameter_definition : ParameterObject → Option Items
unfolding add_attributes
parameter_definition element =
    add_attributes element.attributes ((id_key, one (text element.id)) ∷ [])

-- _api_to_parameters_definition
unfoldable pub api_to_parameters_definition : List ParameterObject → Option (List Items)
unfolding parameter_definition
api_to_parameters_definition [] = some []
api_to_parameters_definition (element ∷ elements) =
    let rest = api_to_parameters_definition elements in
    elim (parameter_definition element) [
      | none ↦ none
      | some current ↦ Option.map (◌∷◌ current) rest
    ]

-- The keys of the API's definition that are renamed, and those that they become.
pub record ApiDefinition : Type 0 where
  pub pipeline_objects : Option (List ApiObject)
  pub parameter_objects : Option (List ParameterObject)
  pub parameter_values : Option (List Field)

pub record Definition : Type 0 where
  pub objects : Option (List Items)
  pub parameters : Option (List Items)
  pub values : Option Items

abbrev with_parameters : ApiDefinition → Option (List Items) → Definition
with_parameters definition parameters = record {
  objects = Option.map api_to_objects_definition definition.pipeline_objects;
  parameters = parameters;
  values = Option.map api_to_values_definition definition.parameter_values;
}

-- api_to_definition; `none` is the KeyError
unfoldable pub api_to_definition : ApiDefinition → Option Definition
unfolding api_to_parameters_definition object_definition api_to_values_definition
api_to_definition definition = elim (definition.parameter_objects) [
  | none ↦ some (with_parameters definition none)
  | some elements ↦
      Option.map (λ ps. with_parameters definition (some ps))
        (api_to_parameters_definition elements)
]

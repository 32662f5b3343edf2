-- ===== src/Datapipeline/Translator.antt =====
-- The functions of awscli/customizations/datapipeline/translator.py. A value is a string, the
-- reference `{'ref': id}`, or a list of these.
use mathlib.Core.List.{map}
use m_awsexp.Common.{
  str_eq, ◌∷◌, List, Option, str_lt, Str, none, some, if◌then◌else◌, [], codes, ◌++◌,
}

pub data Item : Type 0 where
  text ref : Str → Item

pub data Value : Type 0 where
  one : Item → Value
  many : List Item → Value

abbrev pub Items : Type 0
Items = List (Str × Value)

-- An element of `objects`: its `id` and `name`, if any, and its other items.
pub record Element : Type 0 where
  pub id : Option Str
  pub name : Option Str
  pub items : Items

-- `stringValue` or `refValue` is the item's constructor.
pub record Field : Type 0 where
  pub key : Str
  pub value : Item

pub record ApiObject : Type 0 where
  pub id : Str
  pub name : Str
  pub fields : List Field

-- The two errors are PipelineDefinitionError.
pub data Translation {ℓ} (A : Type ℓ) : Type ℓ where
  translated : A → Translation A
  missing_objects : Translation A
  missing_id : Element → Translation A

-- _convert_single_field
abbrev pub convert_single_field : Str → Item → Field
convert_single_field key value = record { key = key; value = value }

-- _parse_each_field
unfoldable pub parse_each_field : Str → Value → List Field
parse_each_field key (one item) = convert_single_field key item ∷ []
parse_each_field key (many items) = map (convert_single_field key) items

-- sorted(element.items()), by the keys, which differ
unfoldable pub insert_item : Str → Value → Items → Items
unfolding str_lt
insert_item key value [] = (key, value) ∷ []
insert_item key value ((k, v) ∷ items) =
    let rest = insert_item key value items in
    if str_lt k key then (k, v) ∷ rest else (key, value) ∷ (k, v) ∷ items

unfoldable pub sort_items : Items → Items
unfolding insert_item
sort_items [] = []
sort_items ((key, value) ∷ items) = insert_item key value (sort_items items)

-- The field list of an element.
unfoldable pub fields_of : Items → List Field
unfolding parse_each_field
fields_of [] = []
fields_of ((key, value) ∷ items) = parse_each_field key value ++ fields_of items

abbrev pub name_or : Option Str → Str → Str
name_or none element_id = element_id
name_or (some name) element_id = name

abbrev pub api_object : Element → Str → ApiObject
api_object element element_id = record {
  id = element_id;
  name = name_or element.name element_id;
  fields = fields_of (sort_items element.items);
}

-- One round of the loop of definition_to_api_objects, before the rounds to come.
abbrev pub with_element :
    Element → Option Str → Translation (List ApiObject) → Translation (List ApiObject)
with_element element none rest = missing_id element
with_element element (some element_id) (translated api_elements) =
    translated (api_object element element_id ∷ api_elements)
with_element element (some element_id) missing_objects = missing_objects
with_element element (some element_id) (missing_id e) = missing_id e

unfoldable pub translate_elements : List Element → Translation (List ApiObject)
unfolding sort_items fields_of
translate_elements [] = translated []
translate_elements (element ∷ elements) =
    with_element element element.id (translate_elements elements)

-- definition_to_api_objects, of definition['objects']
unfoldable pub definition_to_api_objects : Option (List Element) → Translation (List ApiObject)
unfolding translate_elements
definition_to_api_objects none = missing_objects
definition_to_api_objects (some elements) = translate_elements elements

-- _add_value
abbrev pub aggregated : Value → Item → Value
aggregated (one first) value = many (first ∷ value ∷ [])
aggregated (many values) value = many (values ++ value ∷ [])

unfoldable pub add_value : Str → Item → Items → Items
unfolding str_eq
add_value key value [] = (key, one value) ∷ []
add_value key value ((k, v) ∷ current_map) =
    let rest = add_value key value current_map in
    if str_eq k key then (k, aggregated v value) ∷ current_map else (k, v) ∷ rest

-- The loop over the fields of an object.
unfoldable pub add_fields : List Field → Items → Items
unfolding add_value
add_fields [] current = current
add_fields (field ∷ fields) current = add_fields fields (add_value field.key field.value current)

abbrev pub id_key : Str
id_key = codes "id"

abbrev pub name_key : Str
name_key = codes "name"

-- _api_to_objects_definition, for one object and for all
unfoldable pub object_definition : ApiObject → Items
unfolding add_fields
object_definition element =
    add_fields element.fields
      ((id_key, one (text element.id)) ∷ (name_key, one (text element.name)) ∷ [])

abbrev pub api_to_objects_definition : List ApiObject → List Items
api_to_objects_definition = map object_definition

-- definition_to_parameter_values, of definition['values'], as the pairs of id and stringValue
unfoldable pub definition_to_parameter_values : Items → List Field
unfolding fields_of
definition_to_parameter_values values = fields_of values

-- _api_to_values_definition
unfoldable pub api_to_values_definition : List Field → Items
unfolding add_fields
api_to_values_definition api_response = add_fields api_response []

-- ===== src/Datapipeline/TextOnly.antt =====
-- Parameters whose values have no references come back from the API.
use mathlib.Core.List.{map}
use m_awsexp.Common.{
  ap, str_eq, false, none, lookup, Str, List, Option, All, ◌≡◌, some, ◌++◌, ◌∷◌, [], if_both,
  str_lt, ◌∙◌, refl,
}
use m_awsexp.Datapipeline.Dictionary.{
  Distinct, restored_at, sort_items_lem, lookup-fields_of, lookup-fields_of-none,
}
use m_awsexp.Datapipeline.Translator.{
  id_key, text, ref, sort_items, insert_item, Item, fields_of, Value, parse_each_field, add_fields,
  Field, Items, one, many, convert_single_field, add_value,
}
use m_awsexp.Datapipeline.Parameters.{
  parameter_object, parameter_definition, add_attributes, Parameter,
}

abbrev pub IsText : Item → Type 0
IsText (text s) = Unit
IsText (ref s) = ⊥

abbrev pub TextOnly : Str × Value → Type 0
TextOnly (key, one item) = IsText item
TextOnly (key, many items) = All IsText items

abbrev TextFields : List Field → Type 0
TextFields = All (λ f. IsText f.value)

of_text :
    (item : Item) (o : Option Items)
    → IsText item
    → (elim item as (λ x. Option Items) [ text s ↦ o | ref s ↦ none ]) ≡ o
of_text (text s) o h = refl
of_text (ref s) o h = absurd h

add_attributes-add_fields :
    (fields : List Field) (m : Items)
    → TextFields fields
    → add_attributes fields m ≡ some (add_fields fields m)
unfolding add_attributes add_fields
add_attributes-add_fields [] m h = refl
add_attributes-add_fields (f ∷ fields) m (h, hs) =
    let rest = add_attributes-add_fields fields (add_value f.key f.value m) hs in
    of_text f.value (add_attributes fields (add_value f.key f.value m)) h ∙ rest

TextFields-append :
    (key : Str) (xs : List Item) (fields : List Field)
    → All IsText xs
    → TextFields fields
    → TextFields (map (convert_single_field key) xs ++ fields)
TextFields-append key [] fields h k = k
TextFields-append key (x ∷ xs) fields (h, hs) k = (h, TextFields-append key xs fields hs k)

TextFields-fields_of : (items : Items) → All TextOnly items → TextFields (fields_of items)
unfolding fields_of parse_each_field
TextFields-fields_of [] h = tt
TextFields-fields_of ((key, one item) ∷ items) (h, hs) = (h, TextFields-fields_of items hs)
TextFields-fields_of ((key, many xs) ∷ items) (h, hs) =
    TextFields-append key xs (fields_of items) h (TextFields-fields_of items hs)

All-insert_item :
    (P : Str × Value → Type 0) (key : Str) (value : Value) (items : Items)
    → P (key, value)
    → All P items
    → All P (insert_item key value items)
unfolding insert_item
All-insert_item P key value [] h hs = (h, tt)
All-insert_item P key value ((k, v) ∷ items) h (g, gs) =
    if_both (All P) (str_lt k key) (g, All-insert_item P key value items h gs) (h, (g, gs))

All-sort_items : (P : Str × Value → Type 0) (items : Items) → All P items → All P (sort_items items)
unfolding sort_items
All-sort_items P [] h = tt
All-sort_items P ((key, value) ∷ items) (h, hs) =
    All-insert_item P key value (sort_items items) h (All-sort_items P items hs)

-- A parameter with each key once and no second `id`, without references, comes back with its id and
-- the value of every other key: but that a list of one item is that item, and an empty list is lost.
pub parameter_definition-restored :
    (e : Parameter) (id : Str)
    → Distinct e.items
    → lookup id_key e.items ≡ none
    → All TextOnly e.items
    → (d : Items) × (parameter_definition (parameter_object e id) ≡ some d)
      × (lookup id_key d ≡ some (one (text id)))
      × ((k : Str) → str_eq id_key k ≡ false → lookup k d ≡ restored_at (lookup k e.items))
unfolding parameter_definition lookup
parameter_definition-restored e id distinct no_id texts =
    let (sorted, same) = sort_items_lem e.items distinct in
    let start = (id_key, one (text id)) ∷ [] in
    let fields = fields_of (sort_items e.items) in
    (
      add_fields fields start,
      add_attributes-add_fields fields start
          (TextFields-fields_of (sort_items e.items) (All-sort_items TextOnly e.items texts)),
      lookup-fields_of-none (sort_items e.items) id_key start (same id_key ∙ no_id),
      λ k not_id.
          lookup-fields_of (sort_items e.items) k start sorted (rw not_id)
          ∙ ap restored_at (same k),
    )

-- ===== src/Table/Formatter.antt =====
-- `TableFormatter` of formatter.py: how a response is taken apart into the sections of a table.
-- A builder is a call of `_build_table` for a value under a key: all of them are made of the value
-- first, and run in the order of the sorted keys.
pub mod Steps
pub mod Rows
pub mod Regular
use m_awsexp.Common.{
  Str, ℕ, ◌+◌, Bool, true, false, not, ◌&&◌, List, [], ◌∷◌, ◌++◌, Option, none, some,
}
use m_awsexp.Common.{if◌then◌else◌, str_eq, str_lt, lookup}
use m_awsexp.Table.Section.{Section, Outcome, done, raised, ◌>>=◌, new_section, table_add_row}
use m_awsexp.Table.Section.{table_add_row_header, wrong_type}
use m_awsexp.Table.Render.{is_empty, Styler, render}
use mathlib.Core.List.{map}

-- A response. A scalar is the text that `six.text_type` makes of it, and whether it is truthy.
mutual
  pub data Value : Type 0 where
    scalar : Str → Bool → Value
    arr : Items → Value
    obj : Fields → Value

  pub data Items : Type 0 where
    nil : Items
    cons : Value → Items → Items

  pub data Fields : Type 0 where
    end : Fields
    field : Str → Value → Fields → Fields

unfoldable pub truthy : Value → Bool
truthy (scalar text b) = b
truthy (arr nil) = false
truthy (arr (cons v vs)) = true
truthy (obj end) = false
truthy (obj (field k v fs)) = true

unfoldable pub scalar_type : Value → Bool
scalar_type (scalar text b) = true
scalar_type (arr xs) = false
scalar_type (obj fs) = false

unfoldable pub is_dict : Value → Bool
is_dict (scalar text b) = false
is_dict (arr xs) = false
is_dict (obj fs) = true

-- all(self._scalar_type(el) for el in item)
unfoldable pub all_scalar : Items → Bool
unfolding scalar_type
all_scalar nil = true
all_scalar (cons v vs) = scalar_type v && all_scalar vs

abbrev pub Builder : Type 0
Builder = ℕ → List Section → Outcome (List Section)

-- The keys in order, each once.
unfoldable pub insert_key : Str → List Str → List Str
unfolding str_eq str_lt
insert_key k [] = k ∷ []
insert_key k (j ∷ ks) =
    let rest = insert_key k ks in
    if str_eq k j then j ∷ ks else if str_lt k j then k ∷ j ∷ ks else j ∷ rest

unfoldable pub sorted_keys : List Str → List Str
unfolding insert_key
sorted_keys [] = []
sorted_keys (k ∷ ks) = insert_key k (sorted_keys ks)

-- The two lists of `_group_scalar_keys`, before they are sorted.
unfoldable pub scalar_keys : Fields → List Str
unfolding scalar_type
scalar_keys end = []
scalar_keys (field k v fs) = if scalar_type v then k ∷ scalar_keys fs else scalar_keys fs

unfoldable pub other_keys : Fields → List Str
unfolding scalar_type
other_keys end = []
other_keys (field k v fs) = if scalar_type v then other_keys fs else k ∷ other_keys fs

unfoldable pub keys : Fields → List Str
keys end = []
keys (field k v fs) = k ∷ keys fs

-- An element of a list whose first element is a dictionary. One that is not a dictionary has no
-- keys if it is empty, and no method `get`.
pub record Element : Type 0 where
  pub scalars : List Str
  pub others : List Str
  pub texts : List (Str × Str)
  pub builders : List (Str × Builder)
  pub has_get : Bool

abbrev no_dictionary : Element
no_dictionary = record { scalars = []; others = []; texts = []; builders = []; has_get = false }

unfoldable pub cons_element : Option Element → Option (List Element) → Option (List Element)
cons_element none es = none
cons_element (some e) none = none
cons_element (some e) (some es) = some (e ∷ es)

unfoldable pub keys_of_all : (Element → List Str) → List Element → List Str
keys_of_all f [] = []
keys_of_all f (e ∷ es) = f e ++ keys_of_all f es

unfoldable pub text_or_empty : List (Str × Str) → Str → Str
unfolding lookup
text_or_empty texts k = elim (lookup k texts) [ none ↦ [] | some text ↦ text ]

-- The calls for the keys of `more` that an element has.
unfoldable pub run_builders :
    List Str → ℕ → List (Str × Builder) → List Section → Outcome (List Section)
unfolding lookup
run_builders [] indent_level builders ss = done ss
run_builders (k ∷ more) indent_level builders ss = elim (lookup k builders) [
  | none ↦ run_builders more indent_level builders ss
  | some build ↦ build indent_level ss >>= run_builders more indent_level builders
]

-- A new section with the header, for an element after the first.
unfoldable pub next_section :
    Bool → List Str → List Str → Option Str → ℕ → List Section → Outcome (List Section)
unfolding is_empty new_section table_add_row_header
next_section first headers more title indent_level ss =
    if not first && not (is_empty more)
    then table_add_row_header headers (new_section title indent_level ss)
    else done ss

unfoldable pub element_row : List Str → Element → Outcome (List Str)
unfolding is_empty text_or_empty
element_row headers e =
    if not e.has_get && not (is_empty headers)
    then raised wrong_type
    else done (map (text_or_empty e.texts) headers)

unfoldable pub element_rows :
    Bool
    → List Str
    → List Str
    → Option Str
    → ℕ
    → List Element
    → List Section
    → Outcome (List Section)
unfolding next_section element_row table_add_row run_builders
element_rows first headers more title indent_level [] ss = done ss
element_rows first headers more title indent_level (e ∷ es) ss =
    next_section first headers more title indent_level ss >>= λ ss1.
    element_row headers e >>= λ row. table_add_row row ss1 >>= λ ss2.
    run_builders more (indent_level + 1) e.builders ss2
    >>= element_rows false headers more title indent_level es

unfoldable pub build_sub_table_from_list :
    List Element → ℕ → Option Str → List Section → Outcome (List Section)
unfolding keys_of_all sorted_keys table_add_row_header element_rows
build_sub_table_from_list es indent_level title ss =
    let headers = sorted_keys (keys_of_all (λ e. e.scalars) es) in
    let more = sorted_keys (keys_of_all (λ e. e.others) es) in
    table_add_row_header headers ss >>= element_rows true headers more title indent_level es

-- The rows of a dictionary's own scalars.
unfoldable pub scalar_rows : List Str → List (Str × Str) → List Section → Outcome (List Section)
unfolding text_or_empty table_add_row table_add_row_header
scalar_rows [] texts ss = done ss
scalar_rows (h ∷ []) texts ss = table_add_row (h ∷ text_or_empty texts h ∷ []) ss
scalar_rows (h ∷ i ∷ hs) texts ss =
    table_add_row_header (h ∷ i ∷ hs) ss >>= table_add_row (map (text_or_empty texts) (h ∷ i ∷ hs))

unfoldable pub build_sub_table_from_dict : Element → ℕ → List Section → Outcome (List Section)
unfolding sorted_keys scalar_rows run_builders
build_sub_table_from_dict e indent_level ss =
    scalar_rows (sorted_keys e.scalars) e.texts ss
    >>= run_builders (sorted_keys e.others) (indent_level + 1) e.builders

unfoldable pub titled_section : Option Str → ℕ → List Section → List Section
unfolding new_section
titled_section none indent_level ss = ss
titled_section (some title) indent_level ss = new_section (some title) indent_level ss

-- `six.text_type` of a list or a dictionary is a parameter.
module _ (text_of_container : Value → Str) where
  unfoldable pub text_of : Value → Str
  text_of (scalar text b) = text
  text_of (arr xs) = text_of_container (arr xs)
  text_of (obj fs) = text_of_container (obj fs)

  unfoldable pub texts_of : Fields → List (Str × Str)
  unfolding text_of
  texts_of end = []
  texts_of (field k v fs) = (k, text_of v) ∷ texts_of fs

  unfoldable pub item_texts : Items → List Str
  unfolding text_of
  item_texts nil = []
  item_texts (cons v vs) = text_of v ∷ item_texts vs

  unfoldable pub element_of : Fields → List (Str × Builder) → Element
  unfolding scalar_keys other_keys texts_of
  element_of fs builders = record {
    scalars = scalar_keys fs;
    others = other_keys fs;
    texts = texts_of fs;
    builders = builders;
    has_get = true;
  }

  unfoldable mutual
    unfolding cons_element is_dict all_scalar keys titled_section table_add_row element_of
        build_sub_table_from_list build_sub_table_from_dict item_texts

    -- `_build_table` but for its result, which is `truthy`.
    pub build_table : Value → Option Str → ℕ → List Section → Outcome (List Section)
    build_table (scalar text b) title indent_level ss =
        done (if b then titled_section title indent_level ss else ss)
    build_table (arr xs) title indent_level ss = build_list xs title indent_level ss
    build_table (obj end) title indent_level ss = done ss
    build_table (obj (field k v fs)) title indent_level ss =
        build_sub_table_from_dict
          (element_of (field k v fs) ((k, build_table v (some k)) ∷ builders_of fs)) indent_level
          (titled_section title indent_level ss)

    -- `_build_table` for a list.
    pub build_list : Items → Option Str → ℕ → List Section → Outcome (List Section)
    build_list nil title indent_level ss = done ss
    build_list (cons v vs) title indent_level ss =
        let ss1 = titled_section title indent_level ss in
        if is_dict v
        then (elim (cons_element (element_of_value v) (elements_of vs)) [
          | none ↦ raised wrong_type
          | some es ↦ build_sub_table_from_list es indent_level title ss1
        ])
        else (build_item v ss1 >>= build_items vs)

    -- The loop over the items of a list whose first is no dictionary.
    pub build_items : Items → List Section → Outcome (List Section)
    build_items nil ss = done ss
    build_items (cons v vs) ss = build_item v ss >>= build_items vs

    pub build_item : Value → List Section → Outcome (List Section)
    build_item (scalar text b) ss = table_add_row (text ∷ []) ss
    build_item (arr xs) ss =
        let deeper = build_list xs none 0 ss in
        if all_scalar xs then table_add_row (item_texts xs) ss else deeper
    build_item (obj fs) ss = table_add_row (keys fs) ss

    pub builders_of : Fields → List (Str × Builder)
    builders_of end = []
    builders_of (field k v fs) = (k, build_table v (some k)) ∷ builders_of fs

    pub elements_of : Items → Option (List Element)
    elements_of nil = some []
    elements_of (cons v vs) = cons_element (element_of_value v) (elements_of vs)

    pub element_of_value : Value → Option Element
    element_of_value (obj fs) = some (element_of fs (builders_of fs))
    element_of_value (scalar [] b) = some no_dictionary
    element_of_value (scalar (c ∷ text) b) = none
    element_of_value (arr nil) = some no_dictionary
    element_of_value (arr (cons v vs)) = none

  module _ (round_scaled : ℕ → ℕ → ℕ → ℕ) (styler : Styler) where
    -- What is written for a response, into a table that is still empty.
    unfoldable pub format_response : ℕ → Str → Value → Outcome (List Str)
    unfolding truthy build_table render
    format_response terminal_width operation_name response =
        if truthy response
        then (build_table response (some operation_name) 0 []
            >>= render round_scaled styler terminal_width true)
        else done []

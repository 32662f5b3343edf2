-- ===== src/Argprocess/Shorthand.antt =====
-- The methods of `ParamShorthand` of argprocess.py. The parser of the command line gives a list of
-- texts to an argument that is a list, and one text to any other; an argument of a plugin may also
-- get one text for a list.
pub mod Methods
pub mod Pairs
pub mod Lists
pub mod Unpack
pub mod Typed
pub mod RoundTrip
use m_awsexp.Common.{Str, List, [], ◌∷◌, Option, none, some, Bool, false, not, ◌&&◌, ◌||◌, codes}
use m_awsexp.Common.{if◌then◌else◌, str_eq, starts_with, ◌==◌, split}
use mathlib.Core.Option
use m_awsexp.Common.{ℕ}
use m_awsexp.Configure.Line.{strip, lstrip}
use m_awsexp.Argprocess.Parse.{Parse, ok, err, ◌>>=◌, value_error, param_error, index_error}
use m_awsexp.Argprocess.Parse.{attribute_error, unknown_key, param_syntax}
use m_awsexp.Argprocess.Commas.{split_on_commas, has_char}
use m_awsexp.Argprocess.Shapes.{
  Shape, scalar, structure, list, map, Members, nil, member, Structure,
}
use m_awsexp.Argprocess.Shapes.{detect_shape_structure, Host, unpack_scalar_cli_arg, is_in}
use m_awsexp.Argprocess.Shapes.{Value, text, array, dict, Values, end, item, Fields, empty, field}

pub data CliValue : Type 0 where
  one : Str → CliValue
  many : List Str → CliValue

pub data Method : Type 0 where
  key_value : Method
  special_key_value : Method
  struct_scalar_list : Method
  list_scalar : Method
  list_key_value : Method
  list_scalar_list : Method

-- SHORTHAND_SHAPES.get(structure)
unfoldable pub shorthand_method : Structure → Option Method
shorthand_method Structure.structure_scalars = some key_value
shorthand_method Structure.structure_scalar = some special_key_value
shorthand_method Structure.structure_lists = some struct_scalar_list
shorthand_method Structure.map_scalar = some key_value
shorthand_method (Structure.list_of Structure.structure_scalar) = some list_scalar
shorthand_method (Structure.list_of Structure.structure_scalars) = some list_key_value
shorthand_method (Structure.list_of Structure.structure_lists) = some list_scalar_list
shorthand_method _ = none

-- part.split('=', 1); `none` if there is one piece
unfoldable pub split_once : Str → Option (Str × Str)
split_once [] = none
split_once (c ∷ s) =
    let rest = Option.map (λ (k, v). (c ∷ k, v)) (split_once s) in
    if c == b'=' then some ([], s) else rest

unfoldable pub find_member : Str → Members → Option Shape
unfolding str_eq
find_member key nil = none
find_member key (member k s ms) =
    let rest = find_member key ms in if str_eq k key then some s else rest

unfoldable pub member_names : Members → List Str
member_names nil = []
member_names (member k s ms) = k ∷ member_names ms

-- parsed[key] = value
unfoldable pub assign : Str → Value → Fields → Fields
unfolding str_eq
assign key value empty = field key value empty
assign key value (field k v fs) =
    let rest = assign key value fs in if str_eq k key then field k value fs else field k v rest

unfoldable pub get : Str → Fields → Option Value
unfolding str_eq
get key empty = none
get key (field k v fs) = let rest = get key fs in if str_eq k key then some v else rest

unfoldable pub append : Values → Value → Values
append end v = item v end
append (item w ws) v = item w (append ws v)

unfoldable pub texts : List Str → Values
texts [] = end
texts (s ∷ ss) = item (text s) (texts ss)

-- The ValueError of `split_on_commas` is turned into a ParamSyntaxError.
unfoldable pub as_syntax_error : Parse (List Str) → Parse (List Str)
as_syntax_error (ok parts) = ok parts
as_syntax_error (err e) = elim e [ value_error ↦ err param_syntax | other ↦ err other ]

unfoldable pub split_commas : Str → Parse (List Str)
unfolding split_on_commas as_syntax_error
split_commas value = as_syntax_error (split_on_commas value)

module _ (host : Host) where
  -- A part of `_key_value_parse`, by the names that `_create_name_to_params` gives: none for a map
  -- without an enum, and an empty dictionary counts as none.
  unfoldable pub unpack_member : Members → Str → Str → Parse Value
  unfolding find_member member_names unpack_scalar_cli_arg
  unpack_member nil key value = ok (text value)
  unpack_member (member k s ms) key value = elim (find_member key (member k s ms)) [
    | none ↦ err (unknown_key key (member_names (member k s ms)))
    | some sub_param ↦ unpack_scalar_cli_arg host sub_param value
  ]

  unfoldable pub check_enum : List Str → Str → Str → Parse Value
  unfolding is_in
  check_enum [] key value = ok (text value)
  check_enum (n ∷ names) key value =
      if is_in key (n ∷ names) then ok (text value) else err (unknown_key key (n ∷ names))

  unfoldable pub unpack_for : Shape → Str → Str → Parse Value
  unfolding unpack_member check_enum
  unpack_for (structure name ms) key value = unpack_member ms key value
  unpack_for (map name (some names) s) key value = check_enum names key value
  unpack_for _ key value = ok (text value)

  unfoldable pub key_value_parts : Shape → List Str → Fields → Parse Fields
  unfolding split_once unpack_for assign strip
  key_value_parts param [] parsed = ok parsed
  key_value_parts param (part ∷ parts) parsed = elim (split_once part) [
    | none ↦ err param_syntax
    | some (key, value) ↦ unpack_for param (strip key) (strip value) >>= λ v.
        key_value_parts param parts (assign (strip key) v parsed)
  ]

  unfoldable pub key_value_parse : Shape → Str → Parse Value
  unfolding split_commas key_value_parts
  key_value_parse param value = split_commas value >>= λ parts.
      key_value_parts param parts empty >>= λ parsed. ok (dict parsed)

  -- What is stored for a key with its first value.
  unfoldable pub first_value : Shape → Str → Parse Value
  unfolding unpack_scalar_cli_arg split texts
  first_value (list name s) value = ok (array (texts (split b',' value)))
  first_value param value = unpack_scalar_cli_arg host param value

  -- current_parsed[key].append(value)
  unfoldable pub append_at : Str → Value → Fields → Parse Fields
  unfolding get assign append
  append_at key value parsed = elim (get key parsed) [
    | some (array vs) ↦ ok (assign key (array (append vs value)) parsed)
    | _ ↦ err attribute_error
  ]

  -- unpack_scalar_cli_arg(args[key], value)
  unfoldable pub unpack_next : Members → Str → Str → Parse Value
  unfolding find_member unpack_scalar_cli_arg
  unpack_next args key value = elim (find_member key args) [
    | none ↦ err (unknown_key key (member_names args))
    | some arg ↦ unpack_scalar_cli_arg host arg value
  ]

  unfoldable pub scalar_list_parts : Members → List Str → Option Str → Fields → Parse Fields
  unfolding split_once strip find_member first_value unpack_next append_at assign
  scalar_list_parts args [] current_key parsed = ok parsed
  scalar_list_parts args (part ∷ parts) current_key parsed = elim (split_once part) [
    | some (key, value) ↦ elim (find_member (strip key) args) [
      | none ↦ err (unknown_key (strip key) (member_names args))
      | some arg ↦ first_value arg (strip value) >>= λ v.
          scalar_list_parts args parts (some (strip key)) (assign (strip key) v parsed)
    ]
    | none ↦ elim current_key [
      | none ↦ err param_syntax
      | some key ↦ unpack_next args key part >>= λ v.
          append_at key v parsed >>= scalar_list_parts args parts (some key)
    ]
  ]

  unfoldable pub struct_scalar_list_parse : Shape → Str → Parse Value
  unfolding split_commas scalar_list_parts
  struct_scalar_list_parse (structure name ms) value = split_commas value >>= λ parts.
      scalar_list_parts ms parts none empty >>= λ parsed. ok (dict parsed)
  struct_scalar_list_parse _ value = err attribute_error

  unfoldable pub is_special_case : Members → Str → Bool
  unfolding has_char str_eq
  is_special_case (member k s nil) value = str_eq k (codes "Value") && not (has_char b'=' value)
  is_special_case _ value = false

  unfoldable pub special_key_value_parse : Shape → Str → Parse Value
  unfolding is_special_case key_value_parse
  special_key_value_parse (structure name ms) value =
      if is_special_case ms value
      then ok (dict (field (codes "Value") (text value) empty))
      else key_value_parse (structure name ms) value
  special_key_value_parse _ value = err attribute_error

  -- The first of the names of a structure's members, for each of the values.
  unfoldable pub under_name : Members → Str → Parse Value
  under_name nil value = err index_error
  under_name (member k s ms) value = ok (dict (field k (text value) empty))

  unfoldable pub list_scalar_item : Shape → Str → Parse Value
  unfolding under_name
  list_scalar_item (structure name ms) value = under_name ms value
  list_scalar_item _ value = err attribute_error

  unfoldable pub each : (Str → Parse Value) → List Str → Parse Values
  each parse [] = ok end
  each parse (v ∷ vs) = parse v >>= λ w. each parse vs >>= λ ws. ok (item w ws)

  -- The values of a list argument; those of one text are its characters.
  unfoldable pub values_of : CliValue → List Str
  values_of (one []) = []
  values_of (one (c ∷ s)) = (c ∷ []) ∷ values_of (one s)
  values_of (many vs) = vs

  unfoldable pub of_list : (Shape → Str → Parse Value) → Shape → CliValue → Parse Value
  unfolding each values_of
  of_list parse (list name s) value = each (parse s) (values_of value) >>= λ vs. ok (array vs)
  of_list parse _ value = err attribute_error

  unfoldable pub of_text : (Str → Parse Value) → CliValue → Parse Value
  of_text parse (one value) = parse value
  of_text parse (many vs) = err attribute_error

  unfoldable pub run_method : Method → Shape → CliValue → Parse Value
  unfolding of_list of_text key_value_parse special_key_value_parse struct_scalar_list_parse
  run_method key_value param = of_text (key_value_parse param)
  run_method special_key_value param = of_text (special_key_value_parse param)
  run_method struct_scalar_list param = of_text (struct_scalar_list_parse param)
  run_method list_scalar param = of_list list_scalar_item param
  run_method list_key_value param = of_list key_value_parse param
  run_method list_scalar_list param = of_list struct_scalar_list_parse param

-- ===== src/Argprocess/Shapes.antt =====
-- The models of arguments, `_detect_shape_structure` and `unpack_scalar_cli_arg` of argprocess.py. A
-- model is a tree as deep as it is looked into: below a name that is met again nothing is.
pub mod Typed
use m_awsexp.Common.{Str, List, [], ◌∷◌, Option, none, some, Bool, true, false, ◌&&◌, ◌||◌, codes}
use m_awsexp.Common.{if◌then◌else◌, str_eq}
use m_awsexp.Common.Int.{ℤ}
use m_awsexp.S3.TransferConfig.{parse_int, lower}
use m_awsexp.Argprocess.Parse.{Parse, ok, err, value_error, param_error}

-- SCALAR_TYPES; a blob is streaming or not
pub data ScalarType : Type 0 where
  string : ScalarType
  float : ScalarType
  integer : ScalarType
  long : ScalarType
  boolean : ScalarType
  double : ScalarType
  blob : Bool → ScalarType
  timestamp : ScalarType

-- A map has the names of its key's enum, if it has one.
mutual
  pub data Shape : Type 0 where
    scalar : Str → ScalarType → Shape
    structure : Str → Members → Shape
    list : Str → Shape → Shape
    map : Str → Option (List Str) → Shape → Shape

  pub data Members : Type 0 where
    nil : Members
    member : Str → Shape → Members → Members

-- The texts of `detect_shape_structure`: `structure_lists` is 'structure(list-scalar, scalar)', and
-- `structure_other` is any other 'structure(…)'.
pub data Structure : Type 0 where
  recursive : Structure
  one_scalar : Structure
  structure_scalar : Structure
  structure_scalars : Structure
  structure_lists : Structure
  structure_other : Structure
  list_of : Structure → Structure
  map_scalar : Structure
  map_of : Structure → Structure

abbrev pub is_scalar : Structure → Bool
is_scalar one_scalar = true
is_scalar _ = false

abbrev pub is_list_scalar : Structure → Bool
is_list_scalar (list_of s) = is_scalar s
is_list_scalar _ = false

abbrev pub all_of : (Structure → Bool) → List Structure → Bool
all_of test [] = true
all_of test (s ∷ ss) = test s && all_of test ss

abbrev pub any_of : (Structure → Bool) → List Structure → Bool
any_of test [] = false
any_of test (s ∷ ss) = test s || any_of test ss

-- Whether the set of the texts is that of 'list-scalar' and 'scalar'.
abbrev pub has_scalars_and_lists : List Structure → Bool
has_scalars_and_lists subs =
    all_of (λ u. is_scalar u || is_list_scalar u) subs
    && any_of is_scalar subs
    && any_of is_list_scalar subs

-- The text of a structure, by the texts of its members: of one scalar, of several, or else by the
-- set of the texts.
unfoldable pub of_members : List Structure → Structure
of_members [] = structure_other
of_members (s ∷ []) = if is_scalar s then structure_scalar else structure_other
of_members (s ∷ t ∷ ss) =
    let subs = s ∷ t ∷ ss in
    if all_of is_scalar subs
    then structure_scalars
    else if all_of (λ u. is_scalar u || is_list_scalar u) subs
        && any_of is_scalar subs
        && any_of is_list_scalar subs
    then structure_lists
    else structure_other

unfoldable pub is_in : Str → List Str → Bool
unfolding str_eq
is_in name [] = false
is_in name (n ∷ stack) = str_eq n name || is_in name stack

-- A scalar as the value of a map.
abbrev pub of_map : Shape → Structure → Structure
of_map (scalar name t) inner = map_scalar
of_map _ inner = map_of inner

unfoldable mutual
  unfolding is_in of_members

  pub detect_from : Shape → List Str → Structure
  detect_from (scalar name t) stack = if is_in name stack then recursive else one_scalar
  detect_from (structure name ms) stack =
      let subs = detect_members ms (name ∷ stack) in
      if is_in name stack then recursive else of_members subs
  detect_from (list name s) stack =
      let inner = detect_from s (name ∷ stack) in
      if is_in name stack then recursive else list_of inner
  detect_from (map name keys s) stack =
      let inner = detect_from s (name ∷ stack) in
      if is_in name stack then recursive else of_map s inner

  pub detect_members : Members → List Str → List Structure
  detect_members nil stack = []
  detect_members (member k s ms) stack = detect_from s stack ∷ detect_members ms stack

unfoldable pub detect_shape_structure : Shape → Structure
unfolding detect_from
detect_shape_structure param = detect_from param []

-- The Python values that the parsers make. A float is kept as the text that it is read from, a file
-- as its path.
mutual
  pub data Value : Type 0 where
    text : Str → Value
    int : ℤ → Value
    float_of : Str → Value
    bool : Bool → Value
    file : Str → Value
    array : Values → Value
    dict : Fields → Value

  pub data Values : Type 0 where
    end : Values
    item : Value → Values → Values

  pub data Fields : Type 0 where
    empty : Fields
    field : Str → Value → Fields → Fields

-- What the parsers ask of Python and of the disk: whether float(value) succeeds, the expansion of a
-- path, and whether it is a file, which can then be opened.
pub record Host : Type 0 where
  pub is_float : Str → Bool
  pub expand : Str → Str
  pub is_file : Str → Bool

module _ (host : Host) where
  abbrev of_int : Option ℤ → Parse Value
  of_int none = err value_error
  of_int (some n) = ok (int n)

  abbrev of_float : Str → Parse Value
  of_float value = if host.is_float value then ok (float_of value) else err value_error

  abbrev not_empty : Str → Bool
  not_empty [] = false
  not_empty (c ∷ s) = true

  -- unpack_scalar_cli_arg for a scalar
  unfoldable pub unpack_as : ScalarType → Str → Parse Value
  unfolding parse_int str_eq
  unpack_as string value = ok (text value)
  unpack_as float value = of_float value
  unpack_as integer value = of_int (parse_int value)
  unpack_as long value = of_int (parse_int value)
  unpack_as boolean value =
      if str_eq (lower value) (codes "false") then ok (bool false) else ok (bool (not_empty value))
  unpack_as double value = of_float value
  unpack_as (blob true) value =
      let path = host.expand value in if host.is_file path then ok (file path) else err param_error
  unpack_as (blob false) value = ok (text value)
  unpack_as timestamp value = ok (text value)

  -- unpack_scalar_cli_arg: a value of another type is left as it is.
  unfoldable pub unpack_scalar_cli_arg : Shape → Str → Parse Value
  unfolding unpack_as
  unpack_scalar_cli_arg (scalar name t) value = unpack_as t value
  unpack_scalar_cli_arg (structure name ms) value = ok (text value)
  unpack_scalar_cli_arg (list name s) value = ok (text value)
  unpack_scalar_cli_arg (map name keys s) value = ok (text value)

-- ===== src/Argprocess/Shapes/Typed.antt =====
-- When a value is one of a model, and what the detected structure says of a model.
use m_awsexp.Common.{Str, List, [], ◌∷◌, Option, none, some, true, false, ◌||◌, ◌≡◌, refl}
use m_awsexp.Common.{if◌then◌else◌, str_eq, arith, codes, if_both}
use m_awsexp.Argprocess.Parse.{Parse, ok, err}
use m_awsexp.S3.TransferConfig.{parse_int, lower}
use m_awsexp.Common.Int.{ℤ}
use mathlib.Core.Path.{subst}
use m_awsexp.Argprocess.Shapes.{
  Shape, scalar, structure, list, map, Members, nil, member, ScalarType, of_map,
  has_scalars_and_lists, structure_lists, structure_other, recursive, list_of,
}
use m_awsexp.Argprocess.Shapes.{
  string, float, integer, long, boolean, double, blob, timestamp, is_in,
}
use m_awsexp.Argprocess.Shapes.{
  Value, text, int, float_of, bool, file, array, dict, Values, end, item,
}
use m_awsexp.Argprocess.Shapes.{
  Fields, empty, field, Host, unpack_as, of_int, Structure, of_members, all_of,
}
use m_awsexp.Argprocess.Shapes.{detect_from, detect_members, is_scalar, is_list_scalar}

-- The Python type of a scalar.
abbrev pub HasType : ScalarType → Value → Type 0
HasType string (text s) = Unit
HasType timestamp (text s) = Unit
HasType (blob false) (text s) = Unit
HasType (blob true) (file path) = Unit
HasType integer (int n) = Unit
HasType long (int n) = Unit
HasType float (float_of s) = Unit
HasType double (float_of s) = Unit
HasType boolean (bool b) = Unit
HasType _ _ = ⊥

abbrev pub AllFields : (Str → Value → Type 0) → Fields → Type 0
AllFields P empty = Unit
AllFields P (field k v fs) = P k v × AllFields P fs

abbrev pub AllItems : (Value → Type 0) → Values → Type 0
AllItems P end = Unit
AllItems P (item v vs) = P v × AllItems P vs

-- A key of a map is one of its enum, if that is not empty.
abbrev pub KeyFits : Option (List Str) → Str → Type 0
KeyFits none key = Unit
KeyFits (some []) key = Unit
KeyFits (some (n ∷ names)) key = is_in key (n ∷ names) ≡ true

-- A structure's value has known keys only, each with a value of its member's model.
unfoldable mutual
  pub HasShape : Shape → Value → Type 0
  HasShape (scalar name t) v = HasType t v
  HasShape (structure name ms) (dict fs) = AllFields (λ k v. MemberFits ms k v) fs
  HasShape (structure name ms) _ = ⊥
  HasShape (list name s) (array vs) = AllItems (HasShape s) vs
  HasShape (list name s) _ = ⊥
  HasShape (map name keys s) (dict fs) = AllFields (λ k v. KeyFits keys k × HasShape s v) fs
  HasShape (map name keys s) _ = ⊥

  pub MemberFits : Members → Str → Value → Type 0
  MemberFits nil key v = ⊥
  MemberFits (member k s ms) key v =
      let rest = MemberFits ms key v in if str_eq k key then HasShape s v else rest

-- The models whose values are texts.
abbrev pub IsText : Shape → Type 0
IsText (scalar name string) = Unit
IsText (scalar name timestamp) = Unit
IsText (scalar name (blob false)) = Unit
IsText _ = ⊥

pub text-HasShape : (s : Shape) (value : Str) → IsText s → HasShape s (text value)
unfolding HasShape
text-HasShape (scalar name string) value h = tt
text-HasShape (scalar name timestamp) value h = tt
text-HasShape (scalar name (blob false)) value h = tt
text-HasShape (scalar name (blob true)) value h = h
text-HasShape (scalar name integer) value h = h
text-HasShape (scalar name long) value h = h
text-HasShape (scalar name float) value h = h
text-HasShape (scalar name double) value h = h
text-HasShape (scalar name boolean) value h = h
text-HasShape (structure name ms) value h = h
text-HasShape (list name s) value h = h
text-HasShape (map name keys s) value h = h

-- The kinds of members.
abbrev pub AllScalar : Members → Type 0
AllScalar nil = Unit
AllScalar (member k (scalar name t) ms) = AllScalar ms
AllScalar (member k _ ms) = ⊥

abbrev pub AllScalarOrTexts : Members → Type 0
AllScalarOrTexts nil = Unit
AllScalarOrTexts (member k (scalar name t) ms) = AllScalarOrTexts ms
AllScalarOrTexts (member k (list name s) ms) = IsText s × AllScalarOrTexts ms
AllScalarOrTexts (member k _ ms) = ⊥

-- The lists among the members are of texts.
abbrev pub TextLists : Members → Type 0
TextLists nil = Unit
TextLists (member k (list name s) ms) = IsText s × TextLists ms
TextLists (member k _ ms) = TextLists ms

abbrev pub IsScalar : Shape → Type 0
IsScalar (scalar name t) = Unit
IsScalar _ = ⊥

-- What is returned, if anything is, has the type.
abbrev ReturnsType : ScalarType → Parse Value → Type 0
ReturnsType t (ok v) = HasType t v
ReturnsType t (err e) = Unit

ReturnsType-ok :
    (t : ScalarType) (r : Parse Value) (v : Value) → ReturnsType t r → r ≡ ok v → HasType t v
ReturnsType-ok t r v h e = subst (ReturnsType t) e h

module _ (host : Host) where
  of_int-integer : (o : Option ℤ) → ReturnsType integer (of_int host o)
  of_int-integer none = tt
  of_int-integer (some n) = tt

  of_int-long : (o : Option ℤ) → ReturnsType long (of_int host o)
  of_int-long none = tt
  of_int-long (some n) = tt

  unpack_as-ReturnsType : (t : ScalarType) (value : Str) → ReturnsType t (unpack_as host t value)
  unfolding unpack_as
  unpack_as-ReturnsType string value = tt
  unpack_as-ReturnsType float value = if_both (ReturnsType float) (host.is_float value) tt tt
  unpack_as-ReturnsType integer value = of_int-integer (parse_int value)
  unpack_as-ReturnsType long value = of_int-long (parse_int value)
  unpack_as-ReturnsType boolean value =
      if_both (ReturnsType boolean) (str_eq (lower value) (codes "false")) tt tt
  unpack_as-ReturnsType double value = if_both (ReturnsType double) (host.is_float value) tt tt
  unpack_as-ReturnsType (blob true) value =
      if_both (ReturnsType (blob true)) (host.is_file (host.expand value)) tt tt
  unpack_as-ReturnsType (blob false) value = tt
  unpack_as-ReturnsType timestamp value = tt

  pub unpack_as-HasType :
      (t : ScalarType) (value : Str) (v : Value) → unpack_as host t value ≡ ok v → HasType t v
  unpack_as-HasType t value v e = ReturnsType-ok t _ v (unpack_as-ReturnsType t value) e

-- What the detected structures say of the members.
abbrev IsOther : Structure → Type 0
IsOther st = (is_scalar st || is_list_scalar st) ≡ false

of_members-IsOther : (subs : List Structure) → IsOther (of_members subs)
unfolding of_members
of_members-IsOther [] = refl
of_members-IsOther (s ∷ []) = if_both IsOther (is_scalar s) refl refl
of_members-IsOther (s ∷ t ∷ ss) = if_both IsOther (all_of is_scalar (s ∷ t ∷ ss)) refl (
    if_both IsOther (has_scalars_and_lists (s ∷ t ∷ ss)) {x = structure_lists} {y = structure_other}
      refl refl)

of_map-IsOther : (s : Shape) (inner : Structure) → IsOther (of_map s inner)
of_map-IsOther (scalar name t) inner = refl
of_map-IsOther (structure name ms) inner = refl
of_map-IsOther (list name s) inner = refl
of_map-IsOther (map name keys s) inner = refl

structure-IsOther :
    (name : Str) (ms : Members) (stack : List Str) → IsOther (detect_from (structure name ms) stack)
unfolding detect_from
structure-IsOther name ms stack =
    if_both IsOther (is_in name stack) {x = recursive} refl
      (of_members-IsOther (detect_members ms (name ∷ stack)))

map-IsOther :
    (name : Str) (keys : Option (List Str)) (s : Shape) (stack : List Str)
    → IsOther (detect_from (map name keys s) stack)
unfolding detect_from
map-IsOther name keys s stack =
    if_both IsOther (is_in name stack) {x = recursive} refl
      (of_map-IsOther s (detect_from s (name ∷ stack)))

list-ne-scalar :
    (name : Str) (s : Shape) (stack : List Str)
    → is_scalar (detect_from (list name s) stack) ≡ false
unfolding detect_from
list-ne-scalar name s stack =
    if_both (λ st. is_scalar st ≡ false) (is_in name stack) {x = recursive}
      {y = list_of (detect_from s (name ∷ stack))} refl refl

detect_from-IsScalar :
    (s : Shape) (stack : List Str) → is_scalar (detect_from s stack) ≡ true → IsScalar s
detect_from-IsScalar (scalar name t) stack h = tt
detect_from-IsScalar (structure name ms) stack h = ground (arith, structure-IsOther name ms stack)
detect_from-IsScalar (list name s) stack h = ground (arith, list-ne-scalar name s stack)
detect_from-IsScalar (map name keys s) stack h = ground (arith, map-IsOther name keys s stack)

pub detect_members-AllScalar :
    (ms : Members) (stack : List Str)
    → all_of is_scalar (detect_members ms stack) ≡ true
    → AllScalar ms
unfolding detect_from
detect_members-AllScalar nil stack h = tt
detect_members-AllScalar (member k (scalar name t) ms) stack h =
    detect_members-AllScalar ms stack (ground arith)
detect_members-AllScalar (member k (structure name ns) ms) stack h =
    detect_from-IsScalar (structure name ns) stack (ground arith)
detect_members-AllScalar (member k (list name s) ms) stack h =
    detect_from-IsScalar (list name s) stack (ground arith)
detect_members-AllScalar (member k (map name keys s) ms) stack h =
    detect_from-IsScalar (map name keys s) stack (ground arith)

-- The members of 'structure(list-scalar, scalar)'.
pub all_lists-AllScalarOrTexts :
    (ms : Members) (stack : List Str)
    → all_of (λ u. is_scalar u || is_list_scalar u) (detect_members ms stack) ≡ true
    → TextLists ms
    → AllScalarOrTexts ms
unfolding detect_from
all_lists-AllScalarOrTexts nil stack h t = tt
all_lists-AllScalarOrTexts (member k (scalar name ty) ms) stack h t =
    all_lists-AllScalarOrTexts ms stack (ground arith) t
all_lists-AllScalarOrTexts (member k (structure name ns) ms) stack h t =
    ground (arith, structure-IsOther name ns stack)
all_lists-AllScalarOrTexts (member k (list name s) ms) stack h (i, t) =
    (i, all_lists-AllScalarOrTexts ms stack (ground arith) t)
all_lists-AllScalarOrTexts (member k (map name keys s) ms) stack h t =
    ground (arith, map-IsOther name keys s stack)

-- ===== src/Argprocess/Shorthand/Methods.antt =====
-- Which models each method of the shorthand syntax is chosen for.
use m_awsexp.Common.{Str, List, [], ◌∷◌, Option, none, some, Bool, true, ◌||◌, ◌≡◌}
use m_awsexp.Common.{if_both, if_split, arith}
use m_awsexp.Argprocess.Shapes.{
  Shape, scalar, structure, list, map, Members, nil, member, Structure, of_members,
}
use m_awsexp.Argprocess.Shapes.{
  detect_from, detect_members, all_of, is_scalar, is_list_scalar, is_in,
}
use m_awsexp.Argprocess.Shapes.{
  has_scalars_and_lists, recursive, structure_scalar, structure_scalars,
}
use m_awsexp.Argprocess.Shapes.{structure_lists, structure_other, list_of, of_map, one_scalar}
use m_awsexp.Argprocess.Shapes.Typed.{
  AllScalar, AllScalarOrTexts, TextLists, detect_members-AllScalar,
}
use m_awsexp.Argprocess.Shapes.Typed.{all_lists-AllScalarOrTexts}
use m_awsexp.Argprocess.Shorthand.{Method, key_value, special_key_value, struct_scalar_list}
use m_awsexp.Argprocess.Shorthand.{list_scalar, list_key_value, list_scalar_list, shorthand_method}

-- At least one member, and all are scalars.
abbrev pub SomeScalars : Members → Type 0
SomeScalars nil = ⊥
SomeScalars (member k s ms) = AllScalar (member k s ms)

abbrev pub OneScalar : Members → Type 0
OneScalar (member k s nil) = AllScalar (member k s nil)
OneScalar _ = ⊥

abbrev pub MethodFits : Method → Shape → Type 0
MethodFits key_value (structure name ms) = SomeScalars ms
MethodFits key_value (map name keys s) = Unit
MethodFits special_key_value (structure name ms) = SomeScalars ms
MethodFits struct_scalar_list (structure name ms) = TextLists ms → AllScalarOrTexts ms
MethodFits list_scalar (list n (structure name ms)) = OneScalar ms
MethodFits list_key_value (list n (structure name ms)) = SomeScalars ms
MethodFits list_scalar_list (list n (structure name ms)) = TextLists ms → AllScalarOrTexts ms
MethodFits _ _ = ⊥

abbrev pub Chosen : Option Method → Shape → Type 0
Chosen none s = Unit
Chosen (some m) s = MethodFits m s

abbrev all_lists_or_scalars : List Structure → Bool
all_lists_or_scalars = all_of (λ u. is_scalar u || is_list_scalar u)

-- What a structure's text says of the texts of its members.
abbrev Says : Structure → List Structure → Type 0
Says structure_scalar [] = ⊥
Says structure_scalar (s ∷ []) = is_scalar s ≡ true
Says structure_scalar (s ∷ t ∷ ss) = ⊥
Says structure_scalars [] = ⊥
Says structure_scalars (s ∷ ss) = all_of is_scalar (s ∷ ss) ≡ true
Says structure_lists subs = all_lists_or_scalars subs ≡ true
Says structure_other subs = Unit
Says _ subs = ⊥

of_members-Says : (subs : List Structure) → Says (of_members subs) subs
unfolding of_members
of_members-Says [] = tt
of_members-Says (s ∷ []) =
    if_split (λ st. Says st (s ∷ [])) (is_scalar s) {x = structure_scalar} {y = structure_other}
      (λ h. ground arith) (λ _. tt)
of_members-Says (s ∷ t ∷ ss) =
    if_split (λ st. Says st (s ∷ t ∷ ss)) (all_of is_scalar (s ∷ t ∷ ss)) {x = structure_scalars}
      (λ h. h)
      (λ _.
        if_split (λ st. Says st (s ∷ t ∷ ss)) (has_scalars_and_lists (s ∷ t ∷ ss))
          {x = structure_lists} {y = structure_other} (λ h. ground arith) (λ _. tt))

OneScalar-structure_scalar :
    (ms : Members) (stack : List Str)
    → Says structure_scalar (detect_members ms stack)
    → OneScalar ms
unfolding detect_from
OneScalar-structure_scalar nil stack h = h
OneScalar-structure_scalar (member k s nil) stack h =
    detect_members-AllScalar (member k s nil) stack (ground arith)
OneScalar-structure_scalar (member k s (member j t ms)) stack h = absurd h

OneScalar-SomeScalars : (ms : Members) → OneScalar ms → SomeScalars ms
OneScalar-SomeScalars nil h = h
OneScalar-SomeScalars (member k s nil) h = h
OneScalar-SomeScalars (member k s (member j t ms)) h = absurd h

SomeScalars-structure_scalars :
    (ms : Members) (stack : List Str)
    → Says structure_scalars (detect_members ms stack)
    → SomeScalars ms
unfolding detect_from
SomeScalars-structure_scalars nil stack h = h
SomeScalars-structure_scalars (member k s ms) stack h =
    detect_members-AllScalar (member k s ms) stack h

-- The method of a structure, and that of a list of structures.
Chosen-structure :
    (name : Str) (ms : Members) (stack : List Str) (st : Structure)
    → Says st (detect_members ms stack)
    → Chosen (shorthand_method st) (structure name ms)
unfolding shorthand_method
Chosen-structure name ms stack structure_scalar h =
    OneScalar-SomeScalars ms (OneScalar-structure_scalar ms stack h)
Chosen-structure name ms stack structure_scalars h = SomeScalars-structure_scalars ms stack h
Chosen-structure name ms stack structure_lists h = all_lists-AllScalarOrTexts ms stack h
Chosen-structure name ms stack structure_other h = tt
Chosen-structure name ms stack recursive h = absurd h
Chosen-structure name ms stack one_scalar h = absurd h
Chosen-structure name ms stack (list_of st) h = absurd h
Chosen-structure name ms stack Structure.map_scalar h = absurd h
Chosen-structure name ms stack (Structure.map_of st) h = absurd h

Chosen-list :
    (n name : Str) (ms : Members) (stack : List Str) (st : Structure)
    → Says st (detect_members ms stack)
    → Chosen (shorthand_method (list_of st)) (list n (structure name ms))
unfolding shorthand_method
Chosen-list n name ms stack structure_scalar h = OneScalar-structure_scalar ms stack h
Chosen-list n name ms stack structure_scalars h = SomeScalars-structure_scalars ms stack h
Chosen-list n name ms stack structure_lists h = all_lists-AllScalarOrTexts ms stack h
Chosen-list n name ms stack structure_other h = tt
Chosen-list n name ms stack recursive h = absurd h
Chosen-list n name ms stack one_scalar h = absurd h
Chosen-list n name ms stack (list_of st) h = absurd h
Chosen-list n name ms stack Structure.map_scalar h = absurd h
Chosen-list n name ms stack (Structure.map_of st) h = absurd h

list-Chosen :
    (n : Str) (s : Shape) (stack : List Str)
    → Chosen (shorthand_method (list_of (detect_from s stack))) (list n s)
unfolding detect_from shorthand_method
list-Chosen n (scalar name t) stack =
    if_both (λ st. Chosen (shorthand_method (list_of st)) (list n (scalar name t)))
      (is_in name stack) {x = recursive} {y = one_scalar} tt tt
list-Chosen n (structure name ms) stack =
    if_both (λ st. Chosen (shorthand_method (list_of st)) (list n (structure name ms)))
      (is_in name stack) {x = recursive} tt
      (Chosen-list n name ms (name ∷ stack) _ (of_members-Says (detect_members ms (name ∷ stack))))
list-Chosen n (list name s) stack =
    if_both (λ st. Chosen (shorthand_method (list_of st)) (list n (list name s))) (is_in name stack)
      {x = recursive} {y = list_of (detect_from s (name ∷ stack))} tt tt
list-Chosen n (map name keys s) stack =
    if_both (λ st. Chosen (shorthand_method (list_of st)) (list n (map name keys s)))
      (is_in name stack) {x = recursive} tt (of_map_list s (detect_from s (name ∷ stack)))
  where
    of_map_list :
        (t : Shape) (inner : Structure)
        → Chosen (shorthand_method (list_of (of_map t inner))) (list n (map name keys s))
    of_map_list (scalar m t) inner = tt
    of_map_list (structure m ms) inner = tt
    of_map_list (list m t) inner = tt
    of_map_list (map m ks t) inner = tt

-- The method that is chosen for a model is one for it.
pub shorthand_method-Chosen : (s : Shape) → Chosen (shorthand_method (detect_from s [])) s
unfolding detect_from shorthand_method is_in
shorthand_method-Chosen (scalar name t) = tt
shorthand_method-Chosen (structure name ms) =
    Chosen-structure name ms (name ∷ []) _ (of_members-Says (detect_members ms (name ∷ [])))
shorthand_method-Chosen (list name s) = list-Chosen name s (name ∷ [])
shorthand_method-Chosen (map name keys s) = map_chosen s (detect_from s (name ∷ []))
  where
    map_chosen :
        (t : Shape) (inner : Structure)
        → Chosen (shorthand_method (of_map t inner)) (map name keys s)
    map_chosen (scalar m t) inner = tt
    map_chosen (structure m ms) inner = tt
    map_chosen (list m t) inner = tt
    map_chosen (map m ks t) inner = tt

-- ===== src/Argprocess/Shorthand/Lists.antt =====
-- What is stored for the keys of a dictionary by `_struct_scalar_list_parse` fits the model.
use m_awsexp.Common.{
  Str, List, [], ◌∷◌, Option, none, some, ◌≡◌, refl, split, arith, Option-cases, inl, inr, true,
  sym, false,
}
use m_awsexp.Argprocess.Parse.{ok, >>=-eq-ok, ok-injective}
use m_awsexp.Argprocess.Shapes.{Shape, scalar, structure, list, map, Members, Host}
use m_awsexp.Argprocess.Shapes.{Value, text, int, float_of, bool, file, array, dict, Values, Fields}
use m_awsexp.Argprocess.Shapes.{unpack_scalar_cli_arg, ScalarType}
use m_awsexp.Argprocess.Shapes.Typed.{HasShape, MemberFits, AllFields, text-HasShape}
use m_awsexp.Argprocess.Shapes.Typed.{AllScalarOrTexts, unpack_as-HasType, HasType}
use m_awsexp.Argprocess.Shorthand.{find_member, assign, get, append, first_value, append_at}
use m_awsexp.Argprocess.Shorthand.{scalar_list_parts, unpack_next, split_once}
use m_awsexp.Argprocess.Shorthand.Pairs.{ScalarOrTexts, MemberFits-found, found-HasShape}
use m_awsexp.Argprocess.Shorthand.Pairs.{found-ScalarOrTexts, assign-AllFields, get-AllFields}
use m_awsexp.Argprocess.Shorthand.Pairs.{texts-AllItems, append-AllItems}
use m_awsexp.Configure.Line.{strip}
use mathlib.Core.Path.{subst}

-- A list is not a scalar.
array-HasType : (t : ScalarType) (vs : Values) → HasType t (array vs) → ⊥
array-HasType ScalarType.string vs h = h
array-HasType ScalarType.float vs h = h
array-HasType ScalarType.integer vs h = h
array-HasType ScalarType.long vs h = h
array-HasType ScalarType.boolean vs h = h
array-HasType ScalarType.double vs h = h
array-HasType (ScalarType.blob b) vs h =
    elim b as (λ c. HasType (ScalarType.blob c) (array vs) → ⊥) [ true ↦ λ k. k | false ↦ λ k. k ] h
array-HasType ScalarType.timestamp vs h = h

module _ (host : Host) where
  first_value-HasShape :
      (arg : Shape) (value : Str) (v : Value)
      → ScalarOrTexts arg
      → first_value host arg value ≡ ok v
      → HasShape arg v
  unfolding first_value unpack_scalar_cli_arg HasShape
  first_value-HasShape (scalar name t) value v h e = unpack_as-HasType host t value v e
  first_value-HasShape (list name s) value v h e =
      subst (HasShape (list name s)) (ok-injective e) (texts-AllItems s (split b',' value) h)
  first_value-HasShape (structure name ms) value v h e = absurd h
  first_value-HasShape (map name keys s) value v h e = absurd h

  -- A further value for a key whose values are a list.
  appended-HasShape :
      (arg : Shape) (value : Str) (v : Value) (vs : Values)
      → ScalarOrTexts arg
      → unpack_scalar_cli_arg host arg value ≡ ok v
      → HasShape arg (array vs)
      → HasShape arg (array (append vs v))
  unfolding unpack_scalar_cli_arg HasShape
  appended-HasShape (scalar name t) value v vs h e k = absurd (array-HasType t vs k)
  appended-HasShape (list name s) value v vs h e k =
      append-AllItems (HasShape s) vs v k
        (subst (HasShape s) (ok-injective e) (text-HasShape s value h))
  appended-HasShape (structure name ms) value v vs h e k = absurd h
  appended-HasShape (map name keys s) value v vs h e k = absurd h

  append_at-array :
      (key : Str) (value : Value) (parsed fs : Fields)
      → append_at host key value parsed ≡ ok fs
      → (vs : Values) × (get key parsed ≡ some (array vs))
        × (fs ≡ assign key (array (append vs value)) parsed)
  unfolding append_at
  append_at-array key value parsed fs e = from (get key parsed) refl
    where
      from :
          (o : Option Value)
          → get key parsed ≡ o
          → (vs : Values) × (get key parsed ≡ some (array vs))
            × (fs ≡ assign key (array (append vs value)) parsed)
      from (some (array vs)) g = (vs, g, sym (ok-injective (rw (g, append_at) at e)))
      from none g = absurd (ground arith)
      from (some (text s)) g = absurd (ground arith)
      from (some (int n)) g = absurd (ground arith)
      from (some (float_of s)) g = absurd (ground arith)
      from (some (bool b)) g = absurd (ground arith)
      from (some (file s)) g = absurd (ground arith)
      from (some (dict s)) g = absurd (ground arith)

  module _ (args : Members) (kinds : AllScalarOrTexts args) where
    abbrev Fit : Fields → Type 0
    Fit = AllFields (λ k v. MemberFits args k v)

    appended-Fit :
        (key part : Str) (v : Value) (parsed fs : Fields)
        → Fit parsed
        → unpack_next host args key part ≡ ok v
        → append_at host key v parsed ≡ ok fs
        → Fit fs
    unfolding unpack_next
    appended-Fit key part v parsed fs fit u a = elim (Option-cases (find_member key args)) [
      | inl unknown ↦ ground arith
      | inr (arg, found) ↦
          let (vs, stored, e) = append_at-array key v parsed fs a in
          let old =
            found-HasShape args key arg (array vs) found
              (get-AllFields (MemberFits args) key (array vs) parsed stored fit) in
          let new =
            appended-HasShape arg part v vs (found-ScalarOrTexts args key arg kinds found)
              (rw (found, unpack_next) at u) old in
          rw e (
            assign-AllFields (MemberFits args) key _ parsed
              (MemberFits-found args key arg _ found new) fit)
    ]

    pub scalar_list_parts-AllFields :
        (parts : List Str) (current_key : Option Str) (parsed fs : Fields)
        → Fit parsed
        → scalar_list_parts host args parts current_key parsed ≡ ok fs
        → Fit fs
    unfolding scalar_list_parts
    scalar_list_parts-AllFields [] current_key parsed fs fit e = subst Fit (ok-injective e) fit
    scalar_list_parts-AllFields (part ∷ parts) current_key parsed fs fit e =
        elim (Option-cases (split_once part)) [
          | inr ((key, value), pair) ↦ elim (Option-cases (find_member (strip key) args)) [
            | inl unknown ↦ ground arith
            | inr (arg, found) ↦
                let (v, first, rest) =
                  >>=-eq-ok (first_value host arg (strip value)) _
                    (rw (pair, found, scalar_list_parts) at e) in
                let shaped =
                  first_value-HasShape arg (strip value) v
                    (found-ScalarOrTexts args (strip key) arg kinds found) first in
                scalar_list_parts-AllFields parts (some (strip key)) (assign (strip key) v parsed)
                  fs
                  (assign-AllFields (MemberFits args) (strip key) v parsed
                    (MemberFits-found args (strip key) arg v found shaped) fit)
                  rest
          ]
          | inl bare ↦ elim (Option-cases current_key) [
            | inl no_key ↦ ground arith
            | inr (key, current) ↦
                let (v, unpacked, further) =
                  >>=-eq-ok (unpack_next host args key part) _
                    (rw (bare, current, scalar_list_parts) at e) in
                let (parsed', stored, rest) = >>=-eq-ok (append_at host key v parsed) _ further in
                scalar_list_parts-AllFields parts (some key) parsed' fs
                  (appended-Fit key part v parsed parsed' fit unpacked stored) rest
          ]
        ]

-- ===== src/Argprocess/Shorthand/Typed.antt =====
-- What the shorthand parsers return is a value of the argument's model.
use m_awsexp.Argprocess.Shorthand.Unpack.{
  call, check_value, looks_like_json, get_parse_method_for_param, as_param_error,
}
use m_awsexp.Common.{
  Str, List, [], ◌∷◌, Option, none, some, ◌≡◌, arith, inl, inr, true, str_eq, codes, Bool-cases,
  str_eq_refl,
}
use m_awsexp.Argprocess.Parse.{Parse, ok, err, ◌>>=◌, >>=-eq-ok, ok-injective}
use m_awsexp.Argprocess.Shapes.{Shape, scalar, structure, list, map, Members, nil, member, Host}
use m_awsexp.Argprocess.Shapes.{
  Value, text, dict, Values, Fields, empty, field, detect_shape_structure,
}
use m_awsexp.Argprocess.Shapes.Typed.{HasShape, AllFields, AllItems, IsText, TextLists}
use m_awsexp.Argprocess.Shapes.Typed.{AllScalarOrTexts, text-HasShape}
use m_awsexp.Argprocess.Shorthand.{key_value_parse, key_value_parts, struct_scalar_list_parse}
use m_awsexp.Argprocess.Shorthand.{
  scalar_list_parts, special_key_value_parse, is_special_case, each,
}
use m_awsexp.Argprocess.Shorthand.{
  list_scalar_item, under_name, of_list, of_text, CliValue, one, many,
}
use m_awsexp.Argprocess.Shorthand.{run_method, Method, split_commas, values_of}
use m_awsexp.Argprocess.Shorthand.Methods.{
  SomeScalars, OneScalar, MethodFits, shorthand_method-Chosen, Chosen,
}
use m_awsexp.Argprocess.Shorthand.Pairs.{FieldFits, ReadsPairs, key_value_parts-AllFields}
use m_awsexp.Argprocess.Shorthand.Lists.{scalar_list_parts-AllFields}
use mathlib.Core.Option.{some-injective}
use mathlib.Core.Path.{subst}
use m_awsexp.Argprocess.Parse.{Fault}

-- A single member named Value, which may be given without its name, is a text.
abbrev ValueIsText : Members → Type 0
ValueIsText (member k s nil) = str_eq k (codes "Value") ≡ true → IsText s
ValueIsText _ = Unit

-- The only member of an item of a list, which is given without its name, is a text.
abbrev SingleIsText : Members → Type 0
SingleIsText (member k s nil) = IsText s
SingleIsText _ = Unit

-- Where the parsers store a text as it is, the model has a text.
abbrev pub KeepsTexts : Shape → Type 0
KeepsTexts (structure name ms) = TextLists ms × ValueIsText ms
KeepsTexts (map name keys s) = IsText s
KeepsTexts (list n (structure name ms)) = TextLists ms × SingleIsText ms
KeepsTexts _ = Unit

module _ (host : Host) where
  fields-HasShape :
      (param : Shape) (fs : Fields)
      → ReadsPairs param
      → AllFields (FieldFits param) fs
      → HasShape param (dict fs)
  unfolding HasShape FieldFits
  fields-HasShape (structure name ms) fs r h = h
  fields-HasShape (map name keys s) fs r h = h
  fields-HasShape (scalar name t) fs r h = absurd r
  fields-HasShape (list name s) fs r h = absurd r

  key_value_parse-HasShape :
      (param : Shape) (value : Str) (v : Value)
      → ReadsPairs param
      → key_value_parse host param value ≡ ok v
      → HasShape param v
  unfolding key_value_parse
  key_value_parse-HasShape param value v r e =
      let (parts, _, e1) = >>=-eq-ok (split_commas value) _ e in
      let (fs, parsed, e2) = >>=-eq-ok (key_value_parts host param parts empty) _ e1 in
      subst (HasShape param) (ok-injective e2) (
        fields-HasShape param fs r
          (key_value_parts-AllFields host param parts empty fs r tt parsed))

  struct_scalar_list_parse-HasShape :
      (name : Str) (ms : Members) (value : Str) (v : Value)
      → AllScalarOrTexts ms
      → struct_scalar_list_parse host (structure name ms) value ≡ ok v
      → HasShape (structure name ms) v
  unfolding struct_scalar_list_parse HasShape
  struct_scalar_list_parse-HasShape name ms value v kinds e =
      let (parts, _, e1) = >>=-eq-ok (split_commas value) _ e in
      let (fs, parsed, e2) = >>=-eq-ok (scalar_list_parts host ms parts none empty) _ e1 in
      subst (HasShape (structure name ms)) (ok-injective e2)
        (scalar_list_parts-AllFields host ms kinds parts none empty fs tt parsed)

  special_case-HasShape :
      (name : Str) (ms : Members) (value : Str)
      → ValueIsText ms
      → is_special_case host ms value ≡ true
      → HasShape (structure name ms) (dict (field (codes "Value") (text value) empty))
  unfolding is_special_case HasShape
  special_case-HasShape name nil value h e = cc
  special_case-HasShape name (member k s (member j t ms)) value h e = cc
  special_case-HasShape name (member k s nil) value h e =
      let named : str_eq k (codes "Value") ≡ true = ground arith in
      (rw named (text-HasShape s value (h named)), tt)

  special_key_value_parse-HasShape :
      (name : Str) (ms : Members) (value : Str) (v : Value)
      → SomeScalars ms
      → ValueIsText ms
      → special_key_value_parse host (structure name ms) value ≡ ok v
      → HasShape (structure name ms) v
  unfolding special_key_value_parse
  special_key_value_parse-HasShape name ms value v s h e =
      elim (Bool-cases (is_special_case host ms value)) [
        | inl special ↦
            subst (HasShape (structure name ms)) (ok-injective (rw special at e))
              (special_case-HasShape name ms value h special)
        | inr usual ↦ key_value_parse-HasShape (structure name ms) value v s (rw usual at e)
      ]

  list_scalar_item-HasShape :
      (name : Str) (ms : Members) (value : Str) (v : Value)
      → OneScalar ms
      → SingleIsText ms
      → list_scalar_item host (structure name ms) value ≡ ok v
      → HasShape (structure name ms) v
  unfolding list_scalar_item under_name HasShape
  list_scalar_item-HasShape name nil value v s h e = absurd s
  list_scalar_item-HasShape name (member k t nil) value v s h e =
      subst (HasShape (structure name (member k t nil))) (ok-injective e)
        (rw (str_eq_refl k) (text-HasShape t value h), tt)
  list_scalar_item-HasShape name (member k t (member j u ms)) value v s h e = absurd s

  each-AllItems :
      (P : Value → Type 0) (parse : Str → Parse Value) (vs : List Str) (ws : Values)
      → ((value : Str) (v : Value) → parse value ≡ ok v → P v)
      → each host parse vs ≡ ok ws
      → AllItems P ws
  unfolding each
  each-AllItems P parse [] ws h e = subst (AllItems P) (ok-injective e) tt
  each-AllItems P parse (x ∷ vs) ws h e =
      let (v, parsed, e1) = >>=-eq-ok (parse x) _ e in
      let (us, rest, e2) = >>=-eq-ok (each host parse vs) _ e1 in
      subst (AllItems P) (ok-injective e2) (h x v parsed, each-AllItems P parse vs us h rest)

  of_list-HasShape :
      (n : Str) (s : Shape) (parse : Shape → Str → Parse Value) (value : CliValue) (v : Value)
      → ((item : Str) (w : Value) → parse s item ≡ ok w → HasShape s w)
      → of_list host parse (list n s) value ≡ ok v
      → HasShape (list n s) v
  unfolding of_list HasShape
  of_list-HasShape n s parse value v h e =
      let (ws, parsed, e1) = >>=-eq-ok (each host (parse s) (values_of host value)) _ e in
      subst (HasShape (list n s)) (ok-injective e1)
        (each-AllItems (HasShape s) (parse s) (values_of host value) ws h parsed)

  of_text-ok :
      (parse : Str → Parse Value) (value : CliValue) (v : Value)
      → of_text host parse value ≡ ok v
      → (item : Str) × (parse item ≡ ok v)
  unfolding of_text
  of_text-ok parse (one item) v e = (item, e)
  of_text-ok parse (many vs) v e = absurd (ground arith)

  run_method-HasShape :
      (m : Method) (param : Shape) (value : CliValue) (v : Value)
      → MethodFits m param
      → KeepsTexts param
      → run_method host m param value ≡ ok v
      → HasShape param v
  unfolding run_method
  run_method-HasShape Method.key_value (structure name ms) value v f k e =
      let (item, parsed) = of_text-ok _ value v e in
      key_value_parse-HasShape (structure name ms) item v f parsed
  run_method-HasShape Method.key_value (map name keys s) value v f k e =
      let (item, parsed) = of_text-ok _ value v e in
      key_value_parse-HasShape (map name keys s) item v k parsed
  run_method-HasShape Method.special_key_value (structure name ms) value v f (_, k) e =
      let (item, parsed) = of_text-ok _ value v e in
      special_key_value_parse-HasShape name ms item v f k parsed
  run_method-HasShape Method.struct_scalar_list (structure name ms) value v f (t, _) e =
      let (item, parsed) = of_text-ok _ value v e in
      struct_scalar_list_parse-HasShape name ms item v (f t) parsed
  run_method-HasShape Method.list_scalar (list n (structure name ms)) value v f (_, k) e =
      of_list-HasShape n (structure name ms) (list_scalar_item host) value v
        (λ item w parsed. list_scalar_item-HasShape name ms item w f k parsed) e
  run_method-HasShape Method.list_key_value (list n (structure name ms)) value v f k e =
      of_list-HasShape n (structure name ms) (key_value_parse host) value v
        (λ item w parsed. key_value_parse-HasShape (structure name ms) item w f parsed) e
  run_method-HasShape Method.list_scalar_list (list n (structure name ms)) value v f (t, _) e =
      of_list-HasShape n (structure name ms) (struct_scalar_list_parse host) value v
        (λ item w parsed. struct_scalar_list_parse-HasShape name ms item w (f t) parsed) e
  run_method-HasShape m param value v f k e = absurd f

  method-Chosen :
      (param : Shape) (value : CliValue) (m : Option Method)
      → get_parse_method_for_param host param value ≡ ok m
      → Chosen m param
  unfolding get_parse_method_for_param
  method-Chosen param value m e =
      let (check_val, _, e1) = >>=-eq-ok (check_value host value) _ e in
      elim (Bool-cases (looks_like_json host check_val)) [
        | inl json ↦ subst (λ (o : Option Method). Chosen o param) (ok-injective (rw json at e1)) tt
        | inr shorthand ↦
            subst (λ (o : Option Method). Chosen o param) (ok-injective (rw shorthand at e1))
              (unfold detect_shape_structure in shorthand_method-Chosen param)
      ]

  as_param_error-ok : (r : Parse Value) (v : Value) → as_param_error host r ≡ ok v → r ≡ ok v
  unfolding as_param_error
  as_param_error-ok (ok w) v e = e
  as_param_error-ok (err Fault.param_syntax) v e = cc
  as_param_error-ok (err (Fault.unknown_key key names)) v e = cc
  as_param_error-ok (err Fault.param_error) v e = cc
  as_param_error-ok (err Fault.value_error) v e = cc
  as_param_error-ok (err Fault.attribute_error) v e = cc
  as_param_error-ok (err Fault.index_error) v e = cc
  as_param_error-ok (err Fault.csv_error) v e = cc
  as_param_error-ok (err Fault.spent) v e = cc

  -- What the shorthand syntax is read as has the type of the argument: if a value is read, by
  -- whichever method the detected structure has, then it is a value of the argument's model, with
  -- known keys only and each scalar of its Python type. The places where the parsers keep the text
  -- as it is are of a textual type in the model: the items of lists among the members, the values
  -- of maps, and the single member that is given without its name.
  pub call-HasShape :
      (param : Shape) (value : CliValue) (v : Value)
      → KeepsTexts param
      → call host param value ≡ ok (some v)
      → HasShape param v
  unfolding call
  call-HasShape param value v k e =
      let (m, chosen, e1) = >>=-eq-ok (get_parse_method_for_param host param value) _ e in
      by_method m (method-Chosen param value m chosen) e1
    where
      by_method :
          (m : Option Method)
          → Chosen m param
          → (elim m as (λ _. Parse (Option Value)) [
            | none ↦ ok none
            | some n ↦ as_param_error host (run_method host n param value) >>= λ w. ok (some w)
          ])
            ≡ ok (some v)
          → HasShape param v
      by_method none c e2 = absurd (ground arith)
      by_method (some n) c e2 =
          let (w, parsed, e3) =
            >>=-eq-ok (as_param_error host (run_method host n param value)) _ e2 in
          subst (HasShape param) (some-injective w v (ok-injective e3))
            (run_method-HasShape n param value w c k (as_param_error-ok _ w parsed))

-- ===== src/Argprocess/Shorthand/Unpack.antt =====
-- `ParamShorthand.__call__` and `unpack_cli_arg` of argprocess.py, and how `_unpack_argument` of
-- arguments.py puts them together.
use m_awsexp.Argprocess.Shorthand.{CliValue, one, many, Method, shorthand_method}
use m_awsexp.Argprocess.Shorthand.{run_method, each, values_of, of_text}
use m_awsexp.Common.{Str, [], ◌∷◌, Option, none, some, Bool, ◌||◌}
use m_awsexp.Common.{if◌then◌else◌, starts_with, ◌==◌}
use m_awsexp.Common.{ℕ}
use m_awsexp.Configure.Line.{strip, lstrip}
use m_awsexp.Argprocess.Parse.{Parse, ok, err, ◌>>=◌, value_error, param_error, index_error}
use m_awsexp.Argprocess.Parse.{attribute_error, unknown_key, param_syntax}
use m_awsexp.Argprocess.Shapes.{Shape, scalar, structure, list, map}
use m_awsexp.Argprocess.Shapes.{detect_shape_structure, Host, unpack_scalar_cli_arg}
use m_awsexp.Argprocess.Shapes.{Value, array, Values, end}

module _ (host : Host) where
  -- The value that decides whether this looks like JSON; of no values it is an IndexError.
  unfoldable pub check_value : CliValue → Parse Str
  check_value (one value) = ok value
  check_value (many []) = err index_error
  check_value (many (v ∷ vs)) = ok v

  unfoldable pub looks_like_json : Str → Bool
  unfolding strip starts_with
  looks_like_json value =
      starts_with (strip value) (b'[' ∷ []) || starts_with (strip value) (b'{' ∷ [])

  unfoldable pub get_parse_method_for_param : Shape → CliValue → Parse (Option Method)
  unfolding check_value looks_like_json shorthand_method detect_shape_structure
  get_parse_method_for_param param value = check_value value >>= λ check_val.
      if looks_like_json check_val
      then ok none
      else ok (shorthand_method (detect_shape_structure param))

  -- The exceptions that become a ParamError with the argument's name.
  unfoldable pub as_param_error : Parse Value → Parse Value
  as_param_error (ok v) = ok v
  as_param_error (err e) = elim e [
    | param_syntax ↦ err param_error
    | unknown_key key names ↦ err param_error
    | other ↦ err other
  ]

  -- `__call__`: `none` leaves the value to `unpack_cli_arg`.
  unfoldable pub call : Shape → CliValue → Parse (Option Value)
  unfolding get_parse_method_for_param as_param_error run_method
  call param value = get_parse_method_for_param param value >>= λ method. elim method [
    | none ↦ ok none
    | some m ↦ as_param_error (run_method host m param value) >>= λ v. ok (some v)
  ]

  -- json.loads is a parameter; `none` is its ValueError.
  module _ (json_loads : Str → Option Value) where
    abbrev loaded : Str → Parse Value
    loaded value = elim (json_loads value) [ none ↦ err value_error | some v ↦ ok v ]

    abbrev json_or_param_error : Str → Parse Value
    json_or_param_error value = elim (json_loads value) [ none ↦ err param_error | some v ↦ ok v ]

    -- value.lstrip()[0] == c
    abbrev begins : ℕ → Str → Parse Bool
    begins c value = elim (lstrip value) [ [] ↦ err index_error | d ∷ s ↦ ok (d == c) ]

    unfoldable pub of_json_object : CliValue → Parse Value
    unfolding lstrip
    of_json_object (many vs) = err attribute_error
    of_json_object (one value) =
        begins b'{' value >>= λ b. if b then json_or_param_error value else err param_error

    -- A ValueError in the items of a list is a ParamError.
    unfoldable pub as_list_error : Parse Values → Parse Value
    as_list_error (ok vs) = ok (array vs)
    as_list_error (err e) = elim e [ value_error ↦ err param_error | other ↦ err other ]

    unfoldable pub of_json_list : (Str → Parse Value) → CliValue → Parse Value
    unfolding lstrip strip starts_with as_list_error each values_of
    of_json_list parse (one value) = begins b'[' value >>= λ b.
        if b then loaded value else as_list_error (each host parse (values_of host (one value)))
    of_json_list parse (many []) = ok (array end)
    of_json_list parse (many (v ∷ [])) =
        if starts_with (strip v) (b'[' ∷ [])
        then loaded v
        else as_list_error (each host parse (v ∷ []))
    of_json_list parse (many (v ∷ w ∷ vs)) = as_list_error (each host parse (v ∷ w ∷ vs))

    unfoldable pub unpack_cli_arg : Shape → CliValue → Parse Value
    unfolding of_text of_json_object of_json_list unpack_scalar_cli_arg
    unpack_cli_arg (scalar name t) value =
        of_text host (unpack_scalar_cli_arg host (scalar name t)) value
    unpack_cli_arg (structure name ms) value = of_json_object value
    unpack_cli_arg (map name keys s) value = of_json_object value
    unpack_cli_arg (list name s) value = of_json_list (λ v. unpack_cli_arg s (one v)) value

    -- _unpack_argument of arguments.py, with the shorthand as the handler of its event
    unfoldable pub unpack_argument : Shape → CliValue → Parse Value
    unfolding call unpack_cli_arg
    unpack_argument param value = call param value >>= λ override. elim override [
      | some v ↦ ok v
      | none ↦ unpack_cli_arg param value
    ]

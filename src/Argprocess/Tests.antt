-- ===== src/Argprocess/Tests.antt =====
-- Runs of the parsers of arguments, and examples of what is proved about them.
use m_awsexp.Argprocess.Commas.{csv_row}
use m_awsexp.Argprocess.Shorthand.Unpack.{call}
use m_awsexp.Common.{codes, ◌≡◌, refl, [], ◌∷◌}
use m_awsexp.Argprocess.Parse.{ok, err, index_error, value_error}
use m_awsexp.Common.{arith, Str, List, none, some, false, All, join}
use m_awsexp.Configure.Line.{strip}
use m_awsexp.Argprocess.Parse.{attribute_error}
use m_awsexp.Argprocess.Commas.{split_on_commas}
use m_awsexp.Argprocess.Commas.Ends.{NotSpent, split_on_commas-NotSpent}
use m_awsexp.Argprocess.Shapes.{
  Host, Shape, scalar, structure, list, map, member, nil, string, integer,
}
use m_awsexp.Argprocess.Shapes.{text, array, dict, item, end, field, empty, Fields}
use m_awsexp.Argprocess.Shapes.Typed.{HasShape}
use m_awsexp.Argprocess.Shorthand.{CliValue, many, one, key_value_parse, get, shorthand_method}
use m_awsexp.Argprocess.Shorthand.Typed.{call-HasShape}
use m_awsexp.Argprocess.Shorthand.RoundTrip.{key_value_parse-join, IsPlain, pair_texts, last_value}

quoted_example : split_on_commas (codes "a=\"b,c\",d=e") ≡ ok (codes "a=b,c" ∷ codes "d=e" ∷ [])
unfolding split_on_commas
quoted_example = refl

list_example : split_on_commas (codes "a=[b,c],d=e") ≡ ok (codes "a=b,c" ∷ codes "d=e" ∷ [])
unfolding split_on_commas
list_example = refl

escaped_example : split_on_commas (codes "a=b\\,c,d=e") ≡ ok (codes "a=b,c" ∷ codes "d=e" ∷ [])
unfolding split_on_commas
escaped_example = refl

unclosed_example : split_on_commas (codes "a='b,c") ≡ err value_error
unfolding split_on_commas
unclosed_example = refl

-- An empty list is an exception that nothing catches.
empty_list_example : split_on_commas (codes "a=[]") ≡ err index_error
unfolding split_on_commas
empty_list_example = refl

square_brackets_example :
    split_on_commas (codes "foo,bar=[\"a=b\",'2',c=d],baz")
    ≡ ok (codes "foo" ∷ codes "bar=a=b,2,c=d" ∷ codes "baz" ∷ [])
unfolding split_on_commas
square_brackets_example = refl

quoted_brackets_example :
    split_on_commas (codes "foo,bar=\"[blah]\",c=d],baz")
    ≡ ok (codes "foo" ∷ codes "bar=[blah]" ∷ codes "c=d]" ∷ codes "baz" ∷ [])
unfolding split_on_commas
quoted_brackets_example = refl

missing_bracket_example :
    split_on_commas (codes "foo,bar=[a,baz") ≡ ok (codes "foo" ∷ codes "bar=[a" ∷ codes "baz" ∷ [])
unfolding split_on_commas
missing_bracket_example = refl

mixed_quotes_example :
    split_on_commas (codes "foo,bar=\"1','2',3\",baz")
    ≡ ok (codes "foo" ∷ codes "bar=1','2',3" ∷ codes "baz" ∷ [])
unfolding split_on_commas
mixed_quotes_example = refl

end_bracket_example :
    split_on_commas (codes "foo,bar=[foo,*[biz]*,baz]")
    ≡ ok (codes "foo" ∷ codes "bar=foo,*[biz]*,baz" ∷ [])
unfolding split_on_commas
end_bracket_example = refl

whole_quotes_example :
    split_on_commas (codes "foo,\"bar\",baz") ≡ ok (codes "foo" ∷ codes "bar" ∷ codes "baz" ∷ [])
unfolding split_on_commas
whole_quotes_example = refl

trailing_comma_example : split_on_commas (codes "foo,") ≡ ok (codes "foo" ∷ codes "" ∷ [])
unfolding split_on_commas
trailing_comma_example = refl

abbrev host : Host
host = record { is_float = λ value. false; expand = λ path. path; is_file = λ path. false }

abbrev string_shape : Shape
string_shape = scalar (codes "String") string

abbrev integer_shape : Shape
integer_shape = scalar (codes "Integer") integer

-- --filters Name=a,Values=b,c
abbrev filters : Shape
filters = list (codes "FilterList") (
    structure (codes "Filter") (
      member (codes "Name") string_shape
        (member (codes "Values") (list (codes "ValueStringList") string_shape) nil)))

abbrev filter_values : CliValue
filter_values = many (codes "Name=a,Values=b,c" ∷ [])

filters_example :
    call host filters filter_values
    ≡ ok (
        some (
          array (
            item
              (dict (
                field (codes "Name") (text (codes "a")) (
                  field
                    (codes "Values")
                    (array (item (text (codes "b")) (item (text (codes "c")) end)))
                    empty)))
              end)))
unfolding call split_on_commas shorthand_method
filters_example = refl

call-HasShape_example : HasShape filters (
    array (
      item
        (dict (
          field (codes "Name") (text (codes "a")) (
            field
              (codes "Values")
              (array (item (text (codes "b")) (item (text (codes "c")) end)))
              empty)))
        end))
call-HasShape_example = call-HasShape host filters filter_values _ ((tt, tt), tt) filters_example

-- A further value of a key with one value is an AttributeError that nothing catches.
bare_after_scalar_example : call host filters (many (codes "Name=a,b" ∷ [])) ≡ err attribute_error
unfolding call split_on_commas shorthand_method
bare_after_scalar_example = refl

no_values_example : call host filters (many []) ≡ err index_error
unfolding call
no_values_example = refl

-- A map's value stays a text, whatever its model.
map_of_integers_example :
    call host (map (codes "Map") none integer_shape) (one (codes "a=1"))
    ≡ ok (some (dict (field (codes "a") (text (codes "1")) empty)))
unfolding call split_on_commas shorthand_method
map_of_integers_example = refl

abbrev tags : List (Str × Str)
tags = (codes "a", codes "1") ∷ (codes "b", codes "x=y") ∷ (codes "a", codes "2") ∷ []

tags-IsPlain : All IsPlain tags
unfolding strip
tags-IsPlain = (
  record {
    key_unquoted = (refl, tt);
    key_commas = (omega arith, tt);
    key_equals = (omega arith, tt);
    key_trimmed = refl;
    value_unquoted = (refl, tt);
    value_commas = (omega arith, tt);
    value_trimmed = refl;
  },
  (
    record {
      key_unquoted = (refl, tt);
      key_commas = (omega arith, tt);
      key_equals = (omega arith, tt);
      key_trimmed = refl;
      value_unquoted = (refl, (refl, (refl, tt)));
      value_commas = (omega arith, (omega arith, (omega arith, tt)));
      value_trimmed = refl;
    },
    (
      record {
        key_unquoted = (refl, tt);
        key_commas = (omega arith, tt);
        key_equals = (omega arith, tt);
        key_trimmed = refl;
        value_unquoted = (refl, tt);
        value_commas = (omega arith, tt);
        value_trimmed = refl;
      },
      tt,
    ),
  ),
)

key_value_parse-join_example :
    (fs : Fields) × (key_value_parse host
        (map (codes "Map") none string_shape)
        (join b',' (pair_texts tags))
      ≡ ok (dict fs))
    × ((key : Str) → get key fs ≡ last_value key tags)
key_value_parse-join_example = key_value_parse-join host (codes "Map") string_shape _ _ tags-IsPlain

split_on_commas-NotSpent_example : NotSpent (split_on_commas (codes "a=[b,c=[d,e]],f"))
split_on_commas-NotSpent_example = split_on_commas-NotSpent (codes "a=[b,c=[d,e]],f")

-- A text that starts with a line's end has an empty first row.
blank_row_example : csv_row (codes "\na") ≡ ok []
unfolding csv_row
blank_row_example = refl

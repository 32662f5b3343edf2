-- ===== src/Argprocess/Commas.antt =====
-- `split_on_commas` of awscli/utils.py, with the reader of Python's csv module that it calls: the
-- delimiter is a comma, the quote character '"', which doubles, and the escape character a backslash.
pub mod Fields
pub mod Positions
pub mod Ends
use m_awsexp.Common.{
  Str, ℕ, zero, suc, ◌+◌, List, [], ◌∷◌, ◌++◌, Option, none, some, Bool, false, not,
}
use m_awsexp.Common.{
  ◌==◌, ◌&&◌, ◌||◌, if◌then◌else◌, split, join, ltb, take, drop, length, ends_with,
}
use mathlib.Core.Option
use m_awsexp.Argprocess.Parse.{Parse, ok, err, ◌>>=◌, value_error, index_error, csv_error, spent}

pub data CsvState : Type 0 where
  start_field : CsvState
  escaped : CsvState
  in_field : CsvState
  in_quoted : CsvState
  escape_in_quoted : CsvState
  quote_in_quoted : CsvState

-- The fields of the row so far, or csv.Error.
pub data Row : Type 0 where
  fields : List Str → Row
  bad_csv : Row

abbrev pub more : Str → Row → Row
more field (fields fs) = fields (field ∷ fs)
more field bad_csv = bad_csv

-- After a carriage return only a newline may come.
abbrev pub after_return : Str → Str → Row
after_return field [] = fields (field ∷ [])
after_return field (c ∷ s) = if c == b'\n' then fields (field ∷ []) else bad_csv

-- The reader in a state, with the field that it has read so far. A newline ends the row but in
-- quotes.
unfoldable pub csv_from : CsvState → Str → Str → Row
csv_from start_field field [] = fields (field ∷ [])
csv_from escaped field [] = fields ((field ++ b'\n' ∷ []) ∷ [])
csv_from in_field field [] = fields (field ∷ [])
csv_from in_quoted field [] = fields (field ∷ [])
csv_from escape_in_quoted field [] = fields ((field ++ b'\n' ∷ []) ∷ [])
csv_from quote_in_quoted field [] = fields (field ∷ [])
csv_from start_field field (c ∷ s) =
    let quoted = csv_from in_quoted field s in
    let escape = csv_from escaped field s in
    let saved = more field (csv_from start_field [] s) in
    let added = csv_from in_field (field ++ c ∷ []) s in
    if c == b'\n'
    then fields (field ∷ [])
    else if c == b'\r'
    then after_return field s
    else if c == b'"'
    then quoted
    else if c == b'\\'
    then escape
    else if c == b','
    then saved
    else added
csv_from escaped field (c ∷ s) =
    let added = csv_from in_field (field ++ c ∷ []) s in
    if c == b'\n' then fields ((field ++ c ∷ []) ∷ []) else added
csv_from in_field field (c ∷ s) =
    let escape = csv_from escaped field s in
    let saved = more field (csv_from start_field [] s) in
    let added = csv_from in_field (field ++ c ∷ []) s in
    if c == b'\n'
    then fields (field ∷ [])
    else if c == b'\r'
    then after_return field s
    else if c == b'\\'
    then escape
    else if c == b','
    then saved
    else added
csv_from in_quoted field (c ∷ s) =
    let escape = csv_from escape_in_quoted field s in
    let quote = csv_from quote_in_quoted field s in
    let added = csv_from in_quoted (field ++ c ∷ []) s in
    if c == b'\\' then escape else if c == b'"' then quote else added
csv_from escape_in_quoted field (c ∷ s) = csv_from in_quoted (field ++ c ∷ []) s
csv_from quote_in_quoted field (c ∷ s) =
    let doubled = csv_from in_quoted (field ++ c ∷ []) s in
    let saved = more field (csv_from start_field [] s) in
    let added = csv_from in_field (field ++ c ∷ []) s in
    if c == b'"'
    then doubled
    else if c == b','
    then saved
    else if c == b'\n'
    then fields (field ∷ [])
    else if c == b'\r'
    then after_return field s
    else added

-- The first row of a text that starts with a carriage return.
abbrev pub blank_row : Str → Row
blank_row [] = fields []
blank_row (c ∷ s) = if c == b'\n' then fields [] else bad_csv

-- The reader at the start of a record, where a line's end makes an empty row.
unfoldable pub csv_record : ℕ → Str → Row
unfolding csv_from
csv_record c s =
    let begun = csv_from start_field [] (c ∷ s) in
    if c == b'\n' then fields [] else if c == b'\r' then blank_row s else begun

-- list(csv.reader(six.StringIO(value), escapechar='\\'))[0]
unfoldable pub csv_row : Str → Parse (List Str)
unfolding csv_record
csv_row [] = err index_error
csv_row (c ∷ s) = elim (csv_record c s) [ fields fs ↦ ok fs | bad_csv ↦ err csv_error ]

-- c in s, s.count(c) and s.replace(c, '') for one character
unfoldable pub has_char : ℕ → Str → Bool
has_char c [] = false
has_char c (d ∷ s) = d == c || has_char c s

unfoldable pub count : ℕ → Str → ℕ
count c [] = 0
count c (d ∷ s) = (if d == c then 1 else 0) + count c s

unfoldable pub removed : ℕ → Str → Str
removed c [] = []
removed c (d ∷ s) = let rest = removed c s in if d == c then rest else d ∷ rest

-- s.find(c), and s.find('=['); `none` is -1
unfoldable pub find_char : ℕ → Str → Option ℕ
find_char c [] = none
find_char c (d ∷ s) = let later = Option.map suc (find_char c s) in if d == c then some 0 else later

unfoldable pub find_list : Str → Option ℕ
find_list [] = none
find_list (c ∷ []) = none
find_list (c ∷ d ∷ s) =
    let later = Option.map suc (find_list (d ∷ s)) in
    if c == b'=' && d == b'[' then some 0 else later

-- _find_quote_char_in_part, by the two positions
abbrev first_quote : Option ℕ → Option ℕ → Option ℕ
first_quote none none = none
first_quote (some i) none = some b'"'
first_quote none (some j) = some b'\''
first_quote (some i) (some j) = if ltb i j then some b'"' else some b'\''

unfoldable pub find_quote_char_in_part : Str → Option ℕ
unfolding find_char
find_quote_char_in_part part = first_quote (find_char b'"' part) (find_char b'\'' part)

-- What the loop over the parts is doing: it takes a next part, or `_eat_items` has joined what it
-- has taken and goes on up to a part with the end character, for a quoted value or for a list.
pub data Scan : Type 0 where
  next : Scan
  eating_quoted : ℕ → Str → Scan
  eating_list : ℕ → Str → Scan

-- The first position of '=[' in a part where a list starts.
unfoldable pub list_start : Str → Str → Option ℕ
unfolding find_list find_char find_quote_char_in_part has_char
list_start value part = elim (find_list part) [
  | none ↦ none
  | some start ↦ if not (has_char b']' value) then none else elim (find_quote_char_in_part part) [
    | none ↦ some start
    | some quote ↦ elim (find_char quote part) [
      | none ↦ none
      | some at ↦ if ltb start at then some start else none
    ]
  ]
]

-- s[:-1]
unfoldable pub without_last : Str → Str
without_last [] = []
without_last (c ∷ []) = []
without_last (c ∷ d ∷ s) = c ∷ without_last (d ∷ s)

-- new_chunk[:list_start + 1] + ','.join(list_items)
unfoldable pub list_chunk : (Str → Parse (List Str)) → ℕ → Str → Parse Str
unfolding without_last join
list_chunk again start chunk = again (without_last (drop (start + 2) chunk)) >>= λ list_items.
    ok (take (start + 1) chunk ++ join b',' list_items)

unfoldable pub emit : Str → Parse (List Str) → Parse (List Str)
emit part rest = rest >>= λ parts. ok (part ∷ parts)

-- The loop of `_split_with_quotes`, with its call of itself.
unfoldable pub scan : (Str → Parse (List Str)) → Str → Scan → List Str → Parse (List Str)
unfolding list_start list_chunk emit find_quote_char_in_part count removed ends_with has_char
scan again value next [] = ok []
scan again value (eating_quoted quote chunk) [] = err value_error
scan again value (eating_list start chunk) [] = err value_error
scan again value next (part ∷ parts) =
    let rest = scan again value next parts in
    let of_list = λ (start : ℕ).
      let eaten = scan again value (eating_list start part) parts in
      if has_char b']' part
      then (list_chunk again start part >>= λ chunk. emit chunk rest)
      else eaten in
    let of_quote = λ (quote : ℕ).
      let eaten = scan again value (eating_quoted quote (removed quote part)) parts in
      if count quote part == 2 then emit (removed quote part) rest else eaten in
    elim (list_start value part) [
      | some start ↦ of_list start
      | none ↦ elim (find_quote_char_in_part part) [
        | none ↦ emit part rest
        | some quote ↦ of_quote quote
      ]
    ]
scan again value (eating_quoted quote chunk) (part ∷ parts) =
    let taken = chunk ++ b',' ∷ removed quote part in
    let rest = scan again value next parts in
    let further = scan again value (eating_quoted quote taken) parts in
    if ends_with part quote then emit taken rest else further
scan again value (eating_list start chunk) (part ∷ parts) =
    let taken = chunk ++ b',' ∷ part in
    let rest = scan again value next parts in
    let further = scan again value (eating_list start taken) parts in
    if ends_with part b']'
    then (list_chunk again start taken >>= λ done. emit done rest)
    else further

-- csv.Error is turned into a ValueError.
unfoldable pub as_value_error : Parse (List Str) → Parse (List Str)
as_value_error (ok parts) = ok parts
as_value_error (err csv_error) = err value_error
as_value_error (err e) = err e

-- One unit of fuel for each list within a list.
unfoldable pub split_with_quotes : ℕ → Str → Parse (List Str)
unfolding csv_row scan as_value_error
split_with_quotes zero value = err spent
split_with_quotes (suc fuel) value =
    as_value_error (csv_row value) >>= scan (split_with_quotes fuel) value next

unfoldable pub split_on_commas : Str → Parse (List Str)
unfolding csv_row split_with_quotes split has_char
split_on_commas value =
    let quotes = has_char b'"' value || has_char b'\'' value in
    let brackets = has_char b'[' value || has_char b']' value in
    if not (quotes || brackets || has_char b'\\' value)
    then ok (split b',' value)
    else if not (quotes || brackets)
    then csv_row value
    else split_with_quotes (suc (length value)) value

-- ===== src/Argprocess/Commas/Ends.antt =====
-- The fuel of `split_on_commas` is enough: the text of a list is shorter than the text around it.
use m_awsexp.Argprocess.Commas.Positions.{InText, list_start-InText}
use m_awsexp.Common.{
  Str, ℕ, zero, suc, ◌+◌, ◌≤◌, ◌<◌, List, [], ◌∷◌, ◌++◌, Option, none, some, ends_with,
}
use m_awsexp.Common.{◌==◌, if_both, length, length-append, length-drop, drop, arith}
use m_awsexp.Argprocess.Parse.{Parse, ok, err, ◌>>=◌, Fault}
use m_awsexp.Argprocess.Commas.{removed}
use m_awsexp.Argprocess.Commas.{Row, fields, bad_csv, csv_record, csv_row}
use m_awsexp.Argprocess.Commas.{list_start, list_chunk, emit, scan, Scan}
use m_awsexp.Argprocess.Commas.{
  without_last, split_with_quotes, split_on_commas, next, eating_quoted,
}
use m_awsexp.Argprocess.Commas.{count, removed, has_char, find_quote_char_in_part}
use m_awsexp.Common.{not, split, ◌||◌, if◌then◌else◌, ends_with}
use m_awsexp.Argprocess.Commas.{eating_list, as_value_error}
use m_awsexp.Argprocess.Commas.Fields.{weight, Bounded, csv_record-Bounded}

-- What the reader makes of a text.
abbrev RowBounded : ℕ → Parse (List Str) → Type 0
RowBounded n (ok fs) = weight fs ≤ n
RowBounded n (err Fault.spent) = ⊥
RowBounded n (err _) = Unit

csv_row-RowBounded : (value : Str) → RowBounded (length value + 1) (as_value_error (csv_row value))
unfolding csv_row as_value_error
csv_row-RowBounded [] = tt
csv_row-RowBounded (c ∷ s) = of_row (csv_record c s) (csv_record-Bounded c s)
  where
    of_row :
        (r : Row)
        → Bounded (length (c ∷ s) + 1) r
        → RowBounded (length (c ∷ s) + 1) (
            as_value_error (elim r as (λ _. Parse (List Str)) [
              | fields fs ↦ ok fs
              | bad_csv ↦ err Fault.csv_error
            ]))
    of_row (fields fs) b = omega arith
    of_row bad_csv b = tt

abbrev pub NotSpent {ℓ} : {A : Type ℓ} → Parse A → Type 0
NotSpent (err Fault.spent) = ⊥
NotSpent _ = Unit

>>=-NotSpent {ℓ κ} :
    {A : Type ℓ} {B : Type κ} (m : Parse A) (f : A → Parse B)
    → NotSpent m
    → ((a : A) → NotSpent (f a))
    → NotSpent (m >>= f)
>>=-NotSpent (ok a) f h k = k a
>>=-NotSpent (err Fault.spent) f h k = h
>>=-NotSpent (err Fault.param_syntax) f h k = tt
>>=-NotSpent (err (Fault.unknown_key key names)) f h k = tt
>>=-NotSpent (err Fault.param_error) f h k = tt
>>=-NotSpent (err Fault.value_error) f h k = tt
>>=-NotSpent (err Fault.attribute_error) f h k = tt
>>=-NotSpent (err Fault.index_error) f h k = tt
>>=-NotSpent (err Fault.csv_error) f h k = tt

length-without_last : (s : Str) → length (without_last s) ≤ length s
unfolding without_last
length-without_last [] = omega arith
length-without_last (c ∷ []) = omega arith
length-without_last (c ∷ d ∷ s) = omega (arith, length-without_last (d ∷ s))

emit-NotSpent : (part : Str) (rest : Parse (List Str)) → NotSpent rest → NotSpent (emit part rest)
unfolding emit
emit-NotSpent part rest h = >>=-NotSpent rest _ h (λ _. tt)

-- What the loop holds is not longer than the text.
abbrev Holds : ℕ → Scan → List Str → Type 0
Holds n next parts = weight parts ≤ n + 1
Holds n (eating_quoted quote chunk) parts = weight parts ≤ n + 1
Holds n (eating_list start chunk) parts =
    (start + 2 ≤ length chunk) × (length chunk + weight parts ≤ n)

module _ (again : Str → Parse (List Str)) (value : Str) (n : ℕ)
    (nested : (x : Str) → length x + 2 ≤ n → NotSpent (again x)) where
  list_chunk-NotSpent :
      (start : ℕ) (chunk : Str)
      → start + 2 ≤ length chunk
      → length chunk ≤ n
      → NotSpent (list_chunk again start chunk)
  unfolding list_chunk
  list_chunk-NotSpent start chunk h k =
      >>=-NotSpent (again (without_last (drop (start + 2) chunk))) _
        (nested _ (
          omega
            (arith, length-without_last (drop (start + 2) chunk), length-drop (start + 2) chunk)))
        (λ _. tt)

  emit_list-NotSpent :
      (start : ℕ) (chunk : Str) (rest : Parse (List Str))
      → start + 2 ≤ length chunk
      → length chunk ≤ n
      → NotSpent rest
      → NotSpent (list_chunk again start chunk >>= λ made. emit made rest)
  emit_list-NotSpent start chunk rest h k r =
      >>=-NotSpent (list_chunk again start chunk) _ (list_chunk-NotSpent start chunk h k)
        (λ made. emit-NotSpent made rest r)

  -- The loop at a next part.
  next_step :
      (part : Str) (parts : List Str)
      → length part ≤ n
      → NotSpent (scan again value next parts)
      → ((start : ℕ)
          → start + 2 ≤ length part
          → NotSpent (scan again value (eating_list start part) parts))
      → ((quote : ℕ) → NotSpent (scan again value (eating_quoted quote (removed quote part)) parts))
      → (o : Option ℕ) → InText part o
      → NotSpent (elim o as (λ _. Parse (List Str)) [
        | none ↦ elim (find_quote_char_in_part part) as (λ _. Parse (List Str)) [
          | none ↦ emit part (scan again value next parts)
          | some quote ↦
              if count quote part == 2
              then emit (removed quote part) (scan again value next parts)
              else scan again value (eating_quoted quote (removed quote part)) parts
        ]
        | some start ↦
            if has_char b']' part
            then (list_chunk again start part >>= λ chunk. emit chunk (scan again value next parts))
            else scan again value (eating_list start part) parts
      ])
  next_step part parts short rest of_list of_quote (some start) inside =
      if_both NotSpent (has_char b']' part) (emit_list-NotSpent start part _ inside short rest)
        (of_list start inside)
  next_step part parts short rest of_list of_quote none inside =
      quoted (find_quote_char_in_part part)
    where
      quoted :
          (o : Option ℕ)
          → NotSpent (elim o as (λ _. Parse (List Str)) [
            | none ↦ emit part (scan again value next parts)
            | some quote ↦
                if count quote part == 2
                then emit (removed quote part) (scan again value next parts)
                else scan again value (eating_quoted quote (removed quote part)) parts
          ])
      quoted none = emit-NotSpent part _ rest
      quoted (some quote) =
          if_both NotSpent (count quote part == 2) (emit-NotSpent _ _ rest) (of_quote quote)

  scan-NotSpent :
      (st : Scan) (parts : List Str) → Holds n st parts → NotSpent (scan again value st parts)
  unfolding scan weight
  scan-NotSpent next [] h = tt
  scan-NotSpent (eating_quoted quote chunk) [] h = tt
  scan-NotSpent (eating_list start chunk) [] h = tt
  scan-NotSpent next (part ∷ parts) h =
      next_step part parts (omega arith) (scan-NotSpent next parts (omega arith))
        (λ start inside. scan-NotSpent (eating_list start part) parts (inside, omega arith))
        (λ quote. scan-NotSpent (eating_quoted quote (removed quote part)) parts (omega arith))
        (list_start value part) (list_start-InText value part)
  scan-NotSpent (eating_quoted quote chunk) (part ∷ parts) h =
      if_both NotSpent (ends_with part quote)
        (emit-NotSpent _ _ (scan-NotSpent next parts (omega arith)))
        (scan-NotSpent (eating_quoted quote (chunk ++ b',' ∷ removed quote part)) parts
          (omega arith))
  scan-NotSpent (eating_list start chunk) (part ∷ parts) (h, k) =
      let longer = length-append chunk (b',' ∷ part) in
      if_both NotSpent (ends_with part b']')
        (emit_list-NotSpent start (chunk ++ b',' ∷ part) _ (omega arith) (omega arith)
          (scan-NotSpent next parts (omega arith)))
        (scan-NotSpent (eating_list start (chunk ++ b',' ∷ part)) parts (omega arith, omega arith))

split_with_quotes-NotSpent :
    (fuel : ℕ) (value : Str) → length value < fuel → NotSpent (split_with_quotes fuel value)
unfolding split_with_quotes
split_with_quotes-NotSpent zero value h = absurd (omega arith)
split_with_quotes-NotSpent (suc fuel) value h =
    rest (as_value_error (csv_row value)) (csv_row-RowBounded value)
      (λ x k. split_with_quotes-NotSpent fuel x (omega arith))
  where
    rest :
        (r : Parse (List Str))
        → RowBounded (length value + 1) r
        → ((x : Str) → length x + 2 ≤ length value → NotSpent (split_with_quotes fuel x))
        → NotSpent (r >>= scan (split_with_quotes fuel) value next)
    rest (ok parts) b nested =
        scan-NotSpent (split_with_quotes fuel) value (length value) nested next parts b
    rest (err Fault.spent) b nested = b
    rest (err Fault.param_syntax) b nested = tt
    rest (err (Fault.unknown_key key names)) b nested = tt
    rest (err Fault.param_error) b nested = tt
    rest (err Fault.value_error) b nested = tt
    rest (err Fault.attribute_error) b nested = tt
    rest (err Fault.index_error) b nested = tt
    rest (err Fault.csv_error) b nested = tt

csv_row-NotSpent : (value : Str) → NotSpent (csv_row value)
unfolding csv_row
csv_row-NotSpent [] = tt
csv_row-NotSpent (c ∷ s) = of_row (csv_record c s)
  where
    of_row :
        (r : Row)
        → NotSpent (elim r as (λ _. Parse (List Str)) [
          | fields fs ↦ ok fs
          | bad_csv ↦ err Fault.csv_error
        ])
    of_row (fields fs) = tt
    of_row bad_csv = tt

-- `split_on_commas` comes to its end with every text: with one unit of fuel for each character and
-- one more, the lists in its lists are all taken apart.
pub split_on_commas-NotSpent : (value : Str) → NotSpent (split_on_commas value)
unfolding split_on_commas
split_on_commas-NotSpent value =
    let quotes = has_char b'"' value || has_char b'\'' value in
    let brackets = has_char b'[' value || has_char b']' value in
    if_both NotSpent (not (quotes || brackets || has_char b'\\' value)) {x = ok (split b',' value)}
      tt
      (if_both NotSpent (not (quotes || brackets)) (csv_row-NotSpent value)
        (split_with_quotes-NotSpent (suc (length value)) value (omega arith)))

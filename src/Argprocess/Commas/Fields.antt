-- ===== src/Argprocess/Commas/Fields.antt =====
-- The reader of csv loses nothing but adds nothing: its fields are together not longer than the text.
use m_awsexp.Common.{Str, ℕ, ◌+◌, ◌≤◌, List, [], ◌∷◌, ◌++◌, ◌≡◌}
use m_awsexp.Common.{◌==◌, if_both, length, length-append, arith}
use m_awsexp.Argprocess.Commas.{
  CsvState, start_field, escaped, in_field, in_quoted, escape_in_quoted,
}
use m_awsexp.Argprocess.Commas.{quote_in_quoted, Row, fields, bad_csv, csv_from, more}
use m_awsexp.Argprocess.Commas.{after_return, blank_row, csv_record}

-- The characters of the fields and a comma for each.
unfoldable pub weight : List Str → ℕ
weight [] = 0
weight (f ∷ fs) = length f + 1 + weight fs

abbrev pub Bounded : ℕ → Row → Type 0
Bounded n (fields fs) = weight fs ≤ n
Bounded n bad_csv = Unit

Bounded-mono : (m n : ℕ) (r : Row) → m ≤ n → Bounded m r → Bounded n r
Bounded-mono m n (fields fs) h b = omega arith
Bounded-mono m n bad_csv h b = tt

Bounded-more :
    (n : ℕ) (field : Str) (r : Row) → Bounded n r → Bounded (length field + 1 + n) (more field r)
unfolding weight
Bounded-more n field (fields fs) b = omega arith
Bounded-more n field bad_csv b = tt

Bounded-field : (n : ℕ) (field : Str) → length field + 1 ≤ n → Bounded n (fields (field ∷ []))
unfolding weight
Bounded-field n field h = omega arith

Bounded-after_return :
    (n : ℕ) (field s : Str) → length field + 1 ≤ n → Bounded n (after_return field s)
Bounded-after_return n field [] h = Bounded-field n field h
Bounded-after_return n field (c ∷ s) h =
    if_both (Bounded n) (c == b'\n') (Bounded-field n field h) tt

-- A backslash at the end of the text becomes a newline.
abbrev slack : CsvState → ℕ
slack escaped = 1
slack escape_in_quoted = 1
slack _ = 0

length-snoc : (field : Str) (c : ℕ) → length (field ++ c ∷ []) ≡ length field + 1
length-snoc field c = omega (arith, length-append field (c ∷ []))

csv_from-Bounded :
    (st : CsvState) (field s : Str)
    → Bounded (length field + length s + 1 + slack st) (csv_from st field s)
unfolding csv_from
csv_from-Bounded start_field field [] = Bounded-field _ field (omega arith)
csv_from-Bounded escaped field [] =
    Bounded-field _ (field ++ b'\n' ∷ []) (omega (arith, length-snoc field b'\n'))
csv_from-Bounded in_field field [] = Bounded-field _ field (omega arith)
csv_from-Bounded in_quoted field [] = Bounded-field _ field (omega arith)
csv_from-Bounded escape_in_quoted field [] =
    Bounded-field _ (field ++ b'\n' ∷ []) (omega (arith, length-snoc field b'\n'))
csv_from-Bounded quote_in_quoted field [] = Bounded-field _ field (omega arith)
csv_from-Bounded start_field field (c ∷ s) =
    let n = length field + length (c ∷ s) + 1 + 0 in
    if_both (Bounded n) (c == b'\n') (Bounded-field n field (omega arith)) (
      if_both (Bounded n) (c == b'\r') (Bounded-after_return n field s (omega arith)) (
        if_both (Bounded n) (c == b'"')
          (Bounded-mono _ n _ (omega arith) (csv_from-Bounded in_quoted field s))
          (if_both (Bounded n) (c == b'\\')
            (Bounded-mono _ n _ (omega arith) (csv_from-Bounded escaped field s))
            (if_both (Bounded n) (c == b',')
              (Bounded-mono _ n _ (omega arith)
                (Bounded-more _ field _ (csv_from-Bounded start_field [] s)))
              (Bounded-mono _ n _ (omega (arith, length-snoc field c))
                (csv_from-Bounded in_field (field ++ c ∷ []) s))))))
csv_from-Bounded escaped field (c ∷ s) =
    let n = length field + length (c ∷ s) + 1 + 1 in
    if_both (Bounded n) (c == b'\n')
      (Bounded-field n (field ++ c ∷ []) (omega (arith, length-snoc field c)))
      (Bounded-mono _ n _ (omega (arith, length-snoc field c))
        (csv_from-Bounded in_field (field ++ c ∷ []) s))
csv_from-Bounded in_field field (c ∷ s) =
    let n = length field + length (c ∷ s) + 1 + 0 in
    if_both (Bounded n) (c == b'\n') (Bounded-field n field (omega arith)) (
      if_both (Bounded n) (c == b'\r') (Bounded-after_return n field s (omega arith)) (
        if_both (Bounded n) (c == b'\\')
          (Bounded-mono _ n _ (omega arith) (csv_from-Bounded escaped field s))
          (if_both (Bounded n) (c == b',')
            (Bounded-mono _ n _ (omega arith)
              (Bounded-more _ field _ (csv_from-Bounded start_field [] s)))
            (Bounded-mono _ n _ (omega (arith, length-snoc field c))
              (csv_from-Bounded in_field (field ++ c ∷ []) s)))))
csv_from-Bounded in_quoted field (c ∷ s) =
    let n = length field + length (c ∷ s) + 1 + 0 in
    if_both (Bounded n) (c == b'\\')
      (Bounded-mono _ n _ (omega arith) (csv_from-Bounded escape_in_quoted field s))
      (if_both (Bounded n) (c == b'"')
        (Bounded-mono _ n _ (omega arith) (csv_from-Bounded quote_in_quoted field s))
        (Bounded-mono _ n _ (omega (arith, length-snoc field c))
          (csv_from-Bounded in_quoted (field ++ c ∷ []) s)))
csv_from-Bounded escape_in_quoted field (c ∷ s) =
    Bounded-mono _ _ _ (omega (arith, length-snoc field c))
      (csv_from-Bounded in_quoted (field ++ c ∷ []) s)
csv_from-Bounded quote_in_quoted field (c ∷ s) =
    let n = length field + length (c ∷ s) + 1 + 0 in
    if_both (Bounded n) (c == b'"')
      (Bounded-mono _ n _ (omega (arith, length-snoc field c))
        (csv_from-Bounded in_quoted (field ++ c ∷ []) s))
      (if_both (Bounded n) (c == b',')
        (Bounded-mono _ n _ (omega arith)
          (Bounded-more _ field _ (csv_from-Bounded start_field [] s)))
        (if_both (Bounded n) (c == b'\n') (Bounded-field n field (omega arith)) (
          if_both (Bounded n) (c == b'\r') (Bounded-after_return n field s (omega arith)) (
            Bounded-mono _ n _ (omega (arith, length-snoc field c))
              (csv_from-Bounded in_field (field ++ c ∷ []) s)))))

Bounded-blank_row : (n : ℕ) (s : Str) → Bounded n (blank_row s)
unfolding weight
Bounded-blank_row n [] = omega arith
Bounded-blank_row n (c ∷ s) = if_both (Bounded n) (c == b'\n') {x = fields []} (omega arith) tt

pub csv_record-Bounded : (c : ℕ) (s : Str) → Bounded (length (c ∷ s) + 1) (csv_record c s)
unfolding csv_record weight
csv_record-Bounded c s =
    let n = length (c ∷ s) + 1 in
    if_both (Bounded n) (c == b'\n') {x = fields []} (omega arith) (
      if_both (Bounded n) (c == b'\r') (Bounded-blank_row n s)
        (Bounded-mono _ n _ (omega arith) (csv_from-Bounded start_field [] (c ∷ s))))

-- ===== src/Table/Section/Columns.antt =====
-- Sections whose rows have as many elements as there are columns.
use m_awsexp.Common.{Str, ℕ, List, [], ◌∷◌, ◌++◌, ◌≡◌, refl, length, All, arith, ◌∙◌, sym}
use m_awsexp.Common.{none, some, Free}
use m_awsexp.Table.Section.{Section, done, widened, update_max_widths, add_header, add_row}
use m_awsexp.Table.Section.Covers.{Covers, Covers-refl, Covers-trans, length-Covers}
use mathlib.Core.List.{map}
use Prim.Native.Nat.{max}

-- A text without a line break.
abbrev pub OneLine : Str → Type 0
OneLine s = Free b'\n' s

-- As many elements as columns, none is longer than its column, and none has a line break.
abbrev pub Fits : List Str → List ℕ → Type 0
Fits row ws = Covers 0 (map length row) ws × All OneLine row

abbrev pub HeaderFits : List Str → List ℕ → Type 0
HeaderFits [] ws = Unit
HeaderFits (h ∷ hs) ws = Fits (h ∷ hs) ws

pub record IsSized (s : Section) : Type 0 where
  pub header_fits : HeaderFits s.headers s.max_widths
  pub rows_fit : All (λ row. Fits row s.max_widths) s.rows

pub All-append {ℓ κ} :
    {A : Type ℓ} (P : A → Type κ) (xs ys : List A) → All P xs → All P ys → All P (xs ++ ys)
All-append P [] ys p q = q
All-append P (x ∷ xs) ys (p, ps) q = (p, All-append P xs ys ps q)

pub record IsFresh (s : Section) : Type 0 where
  pub uncounted : s.num_cols ≡ none
  pub no_widths : s.max_widths ≡ []
  pub no_headers : s.headers ≡ []
  pub no_rows : s.rows ≡ []

-- A section with a title and so many columns.
pub record HasCols (n : ℕ) (s : Section) : Type 0 where
  pub counted : s.num_cols ≡ some n
  pub widths : length s.max_widths ≡ n
  pub header_fits : HeaderFits s.headers s.max_widths
  pub rows_fit : All (λ row. Fits row s.max_widths) s.rows

widened_lem :
    (row : List Str) (ws : List ℕ)
    → length row ≡ length ws
    → (ws' : List ℕ) × (widened row ws ≡ some ws') × Covers 0 (map length row) ws' × Covers 0 ws ws'
unfolding widened
widened_lem [] [] h = ([], refl, tt, tt)
widened_lem [] (w ∷ ws) h = absurd (omega arith)
widened_lem (el ∷ row) [] h = absurd (omega arith)
widened_lem (el ∷ row) (w ∷ ws) h =
    let (ws', e, f, c) = widened_lem row ws (omega arith) in
    (max (length el) w ∷ ws', rw e, (omega arith, f), (omega arith, c))

update_max_widths_lem :
    (row : List Str) (ws : List ℕ)
    → length row ≡ length ws
    → (ws' : List ℕ) × (update_max_widths row ws ≡ some ws')
      × Covers 0 (map length row) ws'
      × Covers 0 ws ws'
unfolding update_max_widths
update_max_widths_lem [] [] h = ([], refl, tt, tt)
update_max_widths_lem (el ∷ row) [] h = absurd (omega arith)
update_max_widths_lem row (w ∷ ws) h = widened_lem row (w ∷ ws) h

rows-Covers :
    (rows : List (List Str)) (ws ws' : List ℕ)
    → Covers 0 ws ws'
    → All (λ row. Fits row ws) rows
    → All (λ row. Fits row ws') rows
rows-Covers [] ws ws' c f = tt
rows-Covers (row ∷ rows) ws ws' c (f, fs) =
    ((Covers-trans 0 0 (map length row) ws ws' f.0 c, f.1), rows-Covers rows ws ws' c fs)

header-Covers :
    (headers : List Str) (ws ws' : List ℕ)
    → Covers 0 ws ws'
    → HeaderFits headers ws
    → HeaderFits headers ws'
header-Covers [] ws ws' c f = tt
header-Covers (h ∷ hs) ws ws' c f = (Covers-trans 0 0 (map length (h ∷ hs)) ws ws' f.0 c, f.1)

Fits-refl : (row : List Str) → All OneLine row → Fits row (map length row)
Fits-refl row one = (Covers-refl 0 (map length row), one)

HeaderFits-refl :
    (headers : List Str) → All OneLine headers → HeaderFits headers (map length headers)
HeaderFits-refl [] one = tt
HeaderFits-refl (h ∷ hs) one = Fits-refl (h ∷ hs) one

length-map : (row : List Str) → length (map length row) ≡ length row
length-map [] = refl
length-map (el ∷ row) = omega (arith, length-map row)

-- The first row decides the number of columns.
pub add_row-IsFresh :
    (row : List Str) (s : Section)
    → All OneLine row
    → IsFresh s
    → (s' : Section) × (add_row row s ≡ done s') × HasCols (length row) s' × (s'.title ≡ s.title)
unfolding add_row
add_row-IsFresh row s one fresh = (
  record s { rows = row ∷ []; num_cols = some (length row); max_widths = map length row },
  rw (fresh.uncounted, fresh.no_widths, fresh.no_rows) (ground arith),
  record {
    counted = refl;
    widths = length-map row;
    header_fits = rw fresh.no_headers tt;
    rows_fit = (Fits-refl row one, tt);
  },
  refl,
)

pub add_row-HasCols :
    (n : ℕ) (row : List Str) (s : Section)
    → All OneLine row
    → HasCols n s
    → length row ≡ n
    → (s' : Section) × (add_row row s ≡ done s') × HasCols n s' × (s'.title ≡ s.title)
unfolding add_row
add_row-HasCols n row s one cols h =
    let (ws', e, f, c) = update_max_widths_lem row s.max_widths (h ∙ sym cols.widths) in
    (
      record s { rows = s.rows ++ row ∷ []; num_cols = some n; max_widths = ws' },
      ground arith,
      record {
        counted = refl;
        widths = sym (length-Covers 0 s.max_widths ws' c) ∙ cols.widths;
        header_fits = header-Covers s.headers s.max_widths ws' c cols.header_fits;
        rows_fit =
            All-append _ s.rows (row ∷ []) (rows-Covers s.rows s.max_widths ws' c cols.rows_fit)
              ((f, one), tt);
      },
      refl,
    )

-- A header decides it too.
pub add_header-IsFresh :
    (headers : List Str) (s : Section)
    → All OneLine headers
    → IsFresh s
    → (s' : Section) × (add_header headers s ≡ done s')
      × HasCols (length headers) s'
      × (s'.title ≡ s.title)
unfolding add_header
add_header-IsFresh headers s one fresh = (
  record s { headers = headers; num_cols = some (length headers); max_widths = map length headers },
  ground arith,
  record {
    counted = refl;
    widths = length-map headers;
    header_fits = HeaderFits-refl headers one;
    rows_fit = rw fresh.no_rows tt;
  },
  refl,
)

pub HasCols-IsSized : (n : ℕ) (s : Section) → HasCols n s → IsSized s
HasCols-IsSized n s cols = record { header_fits = cols.header_fits; rows_fit = cols.rows_fit }

pub IsFresh-IsSized : (s : Section) → IsFresh s → IsSized s
IsFresh-IsSized s fresh = record {
  header_fits = rw fresh.no_headers tt;
  rows_fit = rw fresh.no_rows tt;
}

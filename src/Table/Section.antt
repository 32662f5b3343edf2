-- ===== src/Table/Section.antt =====
-- `Section` of table.py, and the methods of `MultiTable` that fill its sections. The scaling of the
-- columns to a width goes through a float: int(round(max_width / float(total) * w)) is a parameter.
pub mod Covers
pub mod Passes
pub mod Widths
pub mod Columns
use m_awsexp.Common.{Str, ℕ, zero, suc, ◌+◌, ◌-◌, List, [], ◌∷◌, ◌++◌, Option, none, some, length}
use m_awsexp.Common.{if◌then◌else◌, ◌==◌}
use m_awsexp.Common.Int.{ℤ, pos, negsuc, sub_ℕ}
use Prim.Native.Nat.{max}
use mathlib.Core.List.{map, reverse}

-- The exceptions of a table: the ValueError of a row that does not fit the others, the IndexError of
-- a header that does not, the TypeError or AttributeError of a value of another type, and the
-- ValueError of the width of no sections.
pub data Fault : Type 0 where
  row_mismatch : Fault
  header_mismatch : Fault
  wrong_type : Fault
  no_section : Fault

pub data Outcome {ℓ} (A : Type ℓ) : Type ℓ where
  done : A → Outcome A
  raised : Fault → Outcome A

infixl 5 ◌>>=◌
abbrev pub ◌>>=◌ {ℓ κ} : {A : Type ℓ} {B : Type κ} → Outcome A → (A → Outcome B) → Outcome B
done a >>= f = f a
raised e >>= f = raised e

-- A section of a list of lists has `None` as its title.
pub record Section : Type 0 where
  pub title : Option Str
  pub headers : List Str
  pub rows : List (List Str)
  pub indent_level : ℕ
  pub num_cols : Option ℕ
  pub max_widths : List ℕ

-- Section()
unfoldable pub init : Section
init = record {
  title = some [];
  headers = [];
  rows = [];
  indent_level = 0;
  num_cols = none;
  max_widths = [];
}

-- The loop of `_update_max_widths`: an element beyond the last column is an IndexError.
unfoldable pub widened : List Str → List ℕ → Option (List ℕ)
widened [] ws = some ws
widened (el ∷ row) [] = none
widened (el ∷ row) (w ∷ ws) = elim (widened row ws) [
  | none ↦ none
  | some ws' ↦ some (max (length el) w ∷ ws')
]

unfoldable pub update_max_widths : List Str → List ℕ → Option (List ℕ)
unfolding widened
update_max_widths row [] = some (map length row)
update_max_widths row (w ∷ ws) = widened row (w ∷ ws)

-- _num_cols, once a header or a row with so many elements has come.
unfoldable pub cols_or : Option ℕ → ℕ → ℕ
cols_or none n = n
cols_or (some k) n = k

unfoldable pub add_header : List Str → Section → Outcome Section
unfolding update_max_widths cols_or
add_header headers s = elim (update_max_widths headers s.max_widths) [
  | none ↦ raised header_mismatch
  | some ws ↦ done record s {
    headers = headers;
    num_cols = some (cols_or s.num_cols (length headers));
    max_widths = ws;
  }
]

-- The texts of the row's elements are given.
unfoldable pub add_row : List Str → Section → Outcome Section
unfolding update_max_widths cols_or
add_row row s =
    if length row == cols_or s.num_cols (length row)
    then (elim (update_max_widths row s.max_widths) [
      | none ↦ raised header_mismatch
      | some ws ↦ done record s {
        rows = s.rows ++ row ∷ [];
        num_cols = some (cols_or s.num_cols (length row));
        max_widths = ws;
      }
    ])
    else raised row_mismatch

unfoldable pub sum : List ℕ → ℕ
sum [] = 0
sum (w ∷ ws) = w + sum ws

-- One pass of the inner loop of `calculate_column_widths`, from the column where it starts, which
-- ends as soon as `off_by` is 0. No width is 0 there: Table/Widths.antt.
unfoldable pub shrink_pass : ℕ → List ℕ → List ℕ
shrink_pass zero ws = ws
shrink_pass (suc off) [] = []
shrink_pass (suc off) (w ∷ ws) = (w - 1) ∷ shrink_pass off ws

unfoldable pub grow_pass : ℕ → List ℕ → List ℕ
grow_pass zero ws = ws
grow_pass (suc off) [] = []
grow_pass (suc off) (w ∷ ws) = (w + 1) ∷ grow_pass off ws

-- `off_by` after a pass over `n` columns.
abbrev pub deficit : ℕ → ℤ
deficit zero = pos zero
deficit (suc n) = negsuc n

-- The loop `while off_by != 0`, on fuel.
unfoldable pub settle : ℕ → ℤ → List ℕ → List ℕ
unfolding shrink_pass grow_pass
settle zero off_by scaled = scaled
settle (suc fuel) (pos zero) scaled = scaled
settle (suc fuel) (pos (suc k)) scaled =
    settle fuel (pos (suc k - length scaled)) (shrink_pass (suc k) scaled)
settle (suc fuel) (negsuc k) scaled =
    settle fuel (deficit (suc k - length scaled)) (reverse (grow_pass (suc k) (reverse scaled)))

-- abs(off_by), which falls with every pass.
abbrev pub magnitude : ℤ → ℕ
magnitude (pos n) = n
magnitude (negsuc n) = suc n

unfoldable pub unscaled_widths : ℕ → Section → List ℕ
unscaled_widths padding s = map (λ w. w + padding) s.max_widths

module _ (round_scaled : ℕ → ℕ → ℕ → ℕ) where
  unfoldable pub scaled_widths : ℕ → List ℕ → List ℕ
  unfolding sum settle
  scaled_widths max_width unscaled =
      let scaled = map (round_scaled max_width (sum unscaled)) unscaled in
      let off_by = sub_ℕ (sum scaled) max_width in settle (magnitude off_by) off_by scaled

  unfoldable pub calculate_column_widths : ℕ → Option ℕ → Section → List ℕ
  unfolding unscaled_widths scaled_widths
  calculate_column_widths padding none s = unscaled_widths padding s
  calculate_column_widths padding (some max_width) s = elim (unscaled_widths padding s) [
    | [] ↦ []
    | w ∷ ws ↦ scaled_widths max_width (w ∷ ws)
  ]

-- total_width(padding=4, with_border=True, outer_padding=indent_level); len(None) is a TypeError.
unfoldable pub total_width : Section → Outcome ℕ
unfolding sum unscaled_widths
total_width s = elim s.title [
  | none ↦ raised wrong_type
  | some title ↦ done (
      max (length title + 2 + s.indent_level + s.indent_level)
        (sum (unscaled_widths 4 s) + 2 + s.indent_level + s.indent_level))
]

-- The sections of a table whose first section is not made in advance, the last one being current:
-- without one, adding a row is an AttributeError.
unfoldable pub new_section : Option Str → ℕ → List Section → List Section
unfolding init
new_section title indent_level sections =
    sections ++ record init { title = title; indent_level = indent_level } ∷ []

-- A method of the current section.
unfoldable pub on_current : (Section → Outcome Section) → List Section → Outcome (List Section)
on_current f [] = raised wrong_type
on_current f (s ∷ []) = f s >>= λ s'. done (s' ∷ [])
on_current f (s ∷ t ∷ ss) = on_current f (t ∷ ss) >>= λ ss'. done (s ∷ ss')

unfoldable pub table_add_row_header : List Str → List Section → Outcome (List Section)
unfolding on_current add_header
table_add_row_header headers = on_current (add_header headers)

unfoldable pub table_add_row : List Str → List Section → Outcome (List Section)
unfolding on_current add_row
table_add_row row = on_current (add_row row)

-- ===== src/Table/Render.antt =====
-- `render` of `MultiTable`, `convert_to_vertical_table` and `IndentedStream` of table.py. What is
-- written is the list of the texts that the innermost stream gets, a whole line each.
pub mod OneLine
pub mod Line
pub mod Lines
pub mod Whole
use m_awsexp.Common.{Str, ℕ, zero, suc, ◌-◌, ◌*◌, Bool, true, false, ◌&&◌, List, [], ◌∷◌, ◌++◌}
use m_awsexp.Common.{none, some, length, replicate, if◌then◌else◌, ltb, ends_with}
use m_awsexp.Table.Cells.{center_text, align_left}
use m_awsexp.Table.Section.{
  Section, Outcome, done, raised, ◌>>=◌, init, add_row, total_width, no_section,
}
use m_awsexp.Table.Section.{calculate_column_widths}
use Prim.Native.Nat.{max}
use mathlib.Core.List.{map}

-- `Styler`: what is put around a title, a header, an element and an indentation character.
pub record Styler : Type 0 where
  pub style_title : Str → Str
  pub style_header_column : Str → Str
  pub style_row_element : Str → Str
  pub style_indentation_char : Str → Str

-- The class `Styler` itself, which changes nothing.
unfoldable pub plain : Styler
plain = record {
  style_title = λ text. text;
  style_header_column = λ text. text;
  style_row_element = λ text. text;
  style_indentation_char = λ text. text;
}

abbrev pub edge : Str
edge = b'|' ∷ []

-- s[:-1]
unfoldable pub without_last : Str → Str
without_last [] = []
without_last (c ∷ []) = []
without_last (c ∷ d ∷ s) = c ∷ without_last (d ∷ s)

-- text * n
unfoldable pub times : ℕ → Str → Str
times zero text = []
times (suc n) text = text ++ times n text

-- What `IndentedStream.write` makes of a text.
unfoldable pub write : Str → ℕ → Str → Str
unfolding times without_last ends_with
write indent_char indent_level text =
    times indent_level indent_char
    ++ (if ends_with text b'\n'
        then without_last text ++ times indent_level indent_char ++ b'\n' ∷ []
        else text)

abbrev pub dashes : ℕ → Str
dashes n = replicate n b'-'

-- The parts of `_write_line_break` after the first.
unfoldable pub further_breaks : List ℕ → Str
further_breaks [] = []
further_breaks (w ∷ ws) = dashes (w - 1) ++ b'+' ∷ further_breaks ws

unfoldable pub line_break : List ℕ → Str
unfolding further_breaks
line_break [] = b'\n' ∷ []
line_break (w ∷ ws) = (b'+' ∷ dashes (w - 2) ++ b'+' ∷ []) ++ further_breaks ws ++ b'\n' ∷ []

-- The loops over a header and over a row, with the left edge of the cell that is next.
unfoldable pub header_cells : (Str → Str) → Str → List ℕ → List Str → Str
unfolding center_text
header_cells style left_edge [] headers = []
header_cells style left_edge (w ∷ ws) [] = []
header_cells style left_edge (w ∷ ws) (h ∷ hs) =
    center_text (style h) w left_edge edge (length h) ++ header_cells style [] ws hs

unfoldable pub row_cells : (Str → Str) → Str → Str → List ℕ → List Str → Str
unfolding align_left
row_cells style separator left_edge [] row = []
row_cells style separator left_edge (w ∷ ws) [] = []
row_cells style separator left_edge (w ∷ ws) (el ∷ row) =
    align_left (style el) w left_edge separator (length el) ++ row_cells style separator [] ws row

unfoldable pub is_empty {ℓ} : {A : Type ℓ} → List A → Bool
is_empty [] = true
is_empty (x ∷ xs) = false

module _ (styler : Styler) where
  unfoldable pub render_title : ℕ → Section → List Str
  unfolding center_text is_empty
  render_title max_width s = elim s.title [
    | none ↦ []
    | some [] ↦ []
    | some (c ∷ title) ↦
        (center_text (styler.style_title (c ∷ title)) max_width edge edge (length (c ∷ title))
          ++ b'\n' ∷ [])
        ∷ (if is_empty s.headers && is_empty s.rows
            then ((b'+' ∷ dashes (max_width - 2)) ++ b'+' ∷ b'\n' ∷ []) ∷ []
            else [])
  ]

  unfoldable pub title_lines : List ℕ → List Str → List Str
  unfolding line_break header_cells is_empty
  title_lines widths headers =
      if is_empty headers
      then []
      else (line_break widths
          ∷ (header_cells styler.style_header_column edge widths headers ++ b'\n' ∷ [])
          ∷ [])

  unfoldable pub row_lines : List ℕ → List (List Str) → List Str
  unfolding row_cells
  row_lines widths [] = []
  row_lines widths (row ∷ rows) =
      (row_cells styler.style_row_element edge edge widths row ++ b'\n' ∷ [])
      ∷ row_lines widths rows

module _ (round_scaled : ℕ → ℕ → ℕ → ℕ) (styler : Styler) where
  unfoldable pub render_column_titles : ℕ → Section → List Str
  unfolding calculate_column_widths title_lines
  render_column_titles max_width s =
      title_lines styler (calculate_column_widths round_scaled 4 (some max_width) s) s.headers

  unfoldable pub render_rows : ℕ → Section → List Str
  unfolding calculate_column_widths line_break row_lines is_empty
  render_rows max_width s =
      let widths = calculate_column_widths round_scaled 4 (some max_width) s in
      if is_empty s.rows
      then []
      else if is_empty widths
      then []
      else line_break widths ∷ (row_lines styler widths s.rows ++ line_break widths ∷ [])

  -- The width of a table is at least twice the indentation of each section: Table/Widths.antt.
  unfoldable pub render_section : ℕ → Section → List Str
  unfolding render_title render_column_titles render_rows write
  render_section max_width s =
      let inner = max_width - s.indent_level * 2 in
      map (write (styler.style_indentation_char edge) s.indent_level)
        (render_title styler inner s ++ render_column_titles inner s ++ render_rows inner s)

  unfoldable pub render_sections : ℕ → List Section → List Str
  unfolding render_section
  render_sections max_width [] = []
  render_sections max_width (s ∷ ss) = render_section max_width s ++ render_sections max_width ss

-- max(...) over the sections; of none it is a ValueError.
unfoldable pub calculate_max_width : List Section → Outcome ℕ
unfolding total_width
calculate_max_width [] = raised no_section
calculate_max_width (s ∷ []) = total_width s
calculate_max_width (s ∷ t ∷ ss) =
    total_width s >>= λ w. calculate_max_width (t ∷ ss) >>= λ v. done (max w v)

-- The rows of a section that is turned over: a header and its element each.
unfoldable pub add_pairs : List Str → List Str → Section → Outcome Section
unfolding add_row
add_pairs [] row s = done s
add_pairs (h ∷ hs) [] s = done s
add_pairs (h ∷ hs) (el ∷ row) s = add_row (h ∷ el ∷ []) s >>= add_pairs hs row

unfoldable pub to_vertical : Section → Outcome Section
unfolding add_pairs init
to_vertical s = elim s.rows [
  | [] ↦ done s
  | row ∷ [] ↦ elim s.headers [
    | [] ↦ done s
    | h ∷ hs ↦ add_pairs (h ∷ hs) row record init { title = s.title; indent_level = s.indent_level }
  ]
  | row ∷ next ∷ rows ↦ done s
]

unfoldable pub convert_to_vertical_table : List Section → Outcome (List Section)
unfolding to_vertical
convert_to_vertical_table [] = done []
convert_to_vertical_table (s ∷ ss) =
    to_vertical s >>= λ s'. convert_to_vertical_table ss >>= λ ss'. done (s' ∷ ss')

unfoldable pub converted : Bool → List Section → Outcome (List Section)
converted true sections = convert_to_vertical_table sections
converted false sections = done sections

module _ (round_scaled : ℕ → ℕ → ℕ → ℕ) (styler : Styler) where
  unfoldable pub render_lines : List Section → Outcome (List Str)
  unfolding calculate_max_width render_sections
  render_lines sections = calculate_max_width sections >>= λ max_width.
      done
        ((dashes max_width ++ b'\n' ∷ []) ∷ render_sections round_scaled styler max_width sections)

  unfoldable pub render : ℕ → Bool → List Section → Outcome (List Str)
  unfolding render_lines converted calculate_max_width
  render terminal_width auto_reformat sections = calculate_max_width sections >>= λ max_width.
      converted (ltb terminal_width max_width && auto_reformat) sections >>= render_lines

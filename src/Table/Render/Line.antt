-- ===== src/Table/Render/Line.antt =====
-- A line of a table in a style that changes no text: its cells, and the lines of a title and of rows.
use m_awsexp.Table.Render.OneLine.{
  OneLine-append, OneLine-edge, OneLine-times, OneLine-center_text, OneLine-row_cells,
  OneLine-header_cells, OneLine-further_breaks, OneLine-rule,
}
use m_awsexp.Table.Section.Columns.{OneLine}
use m_awsexp.Table.Section.Columns.{Fits, HeaderFits}
use m_awsexp.Common.{Str, ℕ, zero, suc, ◌+◌, ◌-◌, ◌*◌, ◌≤◌, List, [], ◌∷◌, ◌++◌, ◌≡◌, refl, length}
use m_awsexp.Common.{some, length-append, length-replicate, All, arith, ends_with, if_both, ◌&&◌}
use m_awsexp.Common.{ends_with-append_right, true}
use m_awsexp.Table.Cells.{center_text, length-center_text, length-align_left}
use m_awsexp.Table.Section.{Section, sum}
use m_awsexp.Table.Section.Covers.{Covers}
use m_awsexp.Table.Render.{
  edge, without_last, times, write, further_breaks, line_break, title_lines,
}
use m_awsexp.Table.Render.{
  header_cells, row_cells, row_lines, render_title, plain, is_empty, dashes,
}
use mathlib.Core.List.{map, append_assoc}

-- A line of so many characters before its newline, which is the only one.
abbrev pub IsLine : ℕ → Str → Type 0
IsLine n line = (text : Str) × (line ≡ text ++ b'\n' ∷ []) × (length text ≡ n) × OneLine text

without_last-append : (s : Str) (c : ℕ) → without_last (s ++ c ∷ []) ≡ s
unfolding without_last
without_last-append [] c = refl
without_last-append (d ∷ []) c = refl
without_last-append (d ∷ e ∷ s) c = rw (without_last-append (e ∷ s) c)

length-times : (n : ℕ) → length (times n edge) ≡ n
unfolding times
length-times zero = refl
length-times (suc n) = omega (arith, length-times n)

pub length-dashes : (n : ℕ) → length (dashes n) ≡ n
length-dashes n = length-replicate n b'-'

-- The indentation on both sides.
write-IsLine :
    (n level : ℕ) (line : Str) → IsLine n line → IsLine (n + level * 2) (write edge level line)
unfolding write
write-IsLine n level line (text, e, l, one) =
    let ends : ends_with (text ++ b'\n' ∷ []) b'\n' ≡ true =
      ends_with-append_right text (b'\n' ∷ []) b'\n' (unfold ends_with in refl) in
    rw (e, ends, without_last-append text b'\n')
      (
        times level edge ++ text ++ times level edge,
        simp append_assoc,
        omega (arith, length-append {0}, length-times level),
        OneLine-append (times level edge ++ text) (times level edge)
            (OneLine-append (times level edge) text (OneLine-times level) one)
            (OneLine-times level),
      )

pub write-All :
    (n level : ℕ) (lines : List Str)
    → All (IsLine n) lines
    → All (IsLine (n + level * 2)) (map (write edge level) lines)
write-All n level [] h = tt
write-All n level (line ∷ lines) (h, hs) = (write-IsLine n level line h, write-All n level lines hs)

-- The cells of a row have room.
cells-Covers :
    (row : List Str) (ms ws : List ℕ)
    → Fits row ms
    → Covers 1 (map (λ m. m + 4) ms) ws
    → Covers 0 (map (λ el. length el + 3) row) ws
cells-Covers [] [] ws f c = c
cells-Covers [] (m ∷ ms) ws f c = absurd f.0
cells-Covers (el ∷ row) [] ws f c = absurd f.0
cells-Covers (el ∷ row) (m ∷ ms) [] f c = absurd c
cells-Covers (el ∷ row) (m ∷ ms) (w ∷ ws) ((f, fs), (one, ones)) (c, cs) =
    (omega arith, cells-Covers row ms ws (fs, ones) cs)

length-row_cells :
    (left : Str) (row : List Str) (ws : List ℕ)
    → length left ≤ 1
    → Covers 0 (map (λ el. length el + 3) row) ws
    → length (row_cells (λ text. text) edge left ws row) ≡ sum ws
unfolding row_cells sum
length-row_cells left [] [] l c = refl
length-row_cells left [] (w ∷ ws) l c = absurd c
length-row_cells left (el ∷ row) [] l c = absurd c
length-row_cells left (el ∷ row) (w ∷ ws) l (c, cs) = omega (
  arith,
  length-append {0},
  length-align_left el w left edge (omega arith),
  length-row_cells [] row ws (omega arith) cs,
)

length-header_cells :
    (left : Str) (hs : List Str) (ws : List ℕ)
    → length left ≤ 1
    → Covers 0 (map (λ h. length h + 3) hs) ws
    → length (header_cells (λ text. text) left ws hs) ≡ sum ws
unfolding header_cells sum
length-header_cells left [] [] l c = refl
length-header_cells left [] (w ∷ ws) l c = absurd c
length-header_cells left (h ∷ hs) [] l c = absurd c
length-header_cells left (h ∷ hs) (w ∷ ws) l (c, cs) = omega (
  arith,
  length-append {0},
  length-center_text h w left edge (omega arith) l (omega arith),
  length-header_cells [] hs ws (omega arith) cs,
)

length-further_breaks :
    (ms ws : List ℕ) → Covers 1 (map (λ m. m + 4) ms) ws → length (further_breaks ws) ≡ sum ws
unfolding further_breaks sum
length-further_breaks [] [] c = refl
length-further_breaks [] (w ∷ ws) c = absurd c
length-further_breaks (m ∷ ms) [] c = absurd c
length-further_breaks (m ∷ ms) (w ∷ ws) (c, cs) =
    omega (arith, length-append {0}, length-replicate {0}, length-further_breaks ms ws cs)

pub line_break-IsLine :
    (m : ℕ) (ms ws : List ℕ)
    → Covers 1 (map (λ m. m + 4) (m ∷ ms)) ws
    → IsLine (sum ws) (line_break ws)
unfolding line_break sum
line_break-IsLine m ms [] c = absurd c
line_break-IsLine m ms (w ∷ ws) (c, cs) = (
  (b'+' ∷ dashes (w - 2) ++ b'+' ∷ []) ++ further_breaks ws,
  simp append_assoc,
  omega (
    arith,
    length-append (dashes (w - 2) ++ b'+' ∷ []) (further_breaks ws),
    length-append (dashes (w - 2)) (b'+' ∷ []),
    length-dashes (w - 2),
    length-further_breaks ms ws cs,
  ),
  OneLine-append (b'+' ∷ dashes (w - 2) ++ b'+' ∷ []) _ (OneLine-rule (w - 2))
      (OneLine-further_breaks ws),
)

pub row_lines-All :
    (ms ws : List ℕ) (rows : List (List Str))
    → All (λ row. Fits row ms) rows
    → Covers 1 (map (λ m. m + 4) ms) ws
    → All (IsLine (sum ws)) (row_lines plain ws rows)
unfolding row_lines plain
row_lines-All ms ws [] f c = tt
row_lines-All ms ws (row ∷ rows) (f, fs) c = (
  (
    row_cells (λ text. text) edge edge ws row,
    refl,
    length-row_cells edge row ws (omega arith) (cells-Covers row ms ws f c),
    OneLine-row_cells edge row ws OneLine-edge f.1,
  ),
  row_lines-All ms ws rows fs c,
)

pub title-All :
    (inner : ℕ) (s : Section) (title : Str)
    → s.title ≡ some title
    → length title + 2 ≤ inner
    → OneLine title
    → All (IsLine inner) (render_title plain inner s)
unfolding render_title plain
title-All inner s [] e h one = rw e tt
title-All inner s (c ∷ title) e h one = rw e (
  (
    center_text (c ∷ title) inner edge edge (length (c ∷ title)),
    refl,
    length-center_text (c ∷ title) inner edge edge h (omega arith) (omega arith),
    OneLine-center_text (c ∷ title) inner edge (length (c ∷ title)) OneLine-edge one,
  ),
  if_both (All (IsLine inner)) (is_empty s.headers && is_empty s.rows) (bottom, tt) tt,
)
  where
    bottom : IsLine inner ((b'+' ∷ dashes (inner - 2)) ++ b'+' ∷ b'\n' ∷ [])
    bottom = (
      (b'+' ∷ dashes (inner - 2)) ++ b'+' ∷ [],
      simp append_assoc,
      omega (arith, length-append (dashes (inner - 2)) (b'+' ∷ []), length-dashes (inner - 2)),
      OneLine-rule (inner - 2),
    )

pub title_lines-nil :
    (n : ℕ) (headers : List Str) (ws : List ℕ)
    → HeaderFits headers []
    → All (IsLine n) (title_lines plain ws headers)
unfolding title_lines
title_lines-nil n [] ws f = tt
title_lines-nil n (h ∷ hs) ws f = absurd f.0

pub title_lines-All :
    (m : ℕ) (ms ws : List ℕ) (headers : List Str)
    → HeaderFits headers (m ∷ ms)
    → Covers 1 (map (λ k. k + 4) (m ∷ ms)) ws
    → All (IsLine (sum ws)) (title_lines plain ws headers)
unfolding title_lines plain
title_lines-All m ms ws [] f c = tt
title_lines-All m ms ws (h ∷ hs) f c = (line_break-IsLine m ms ws c, (header_line, tt))
  where
    header_line : IsLine (sum ws) (header_cells (λ text. text) edge ws (h ∷ hs) ++ b'\n' ∷ [])
    header_line = (
      header_cells (λ text. text) edge ws (h ∷ hs),
      refl,
      length-header_cells edge (h ∷ hs) ws (omega arith) (cells-Covers (h ∷ hs) (m ∷ ms) ws f c),
      OneLine-header_cells edge (h ∷ hs) ws OneLine-edge f.1,
    )

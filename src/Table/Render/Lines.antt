-- ===== src/Table/Render/Lines.antt =====
-- The lines of a section, in a style that changes no text.
use m_awsexp.Table.Render.Line.{IsLine, write-All, line_break-IsLine, row_lines-All, title-All}
use m_awsexp.Table.Render.Line.{title_lines-nil, title_lines-All}
use m_awsexp.Table.Section.Columns.{OneLine, Fits, HeaderFits, IsSized, All-append}
use m_awsexp.Common.{
  Str, ℕ, ◌+◌, ◌-◌, ◌*◌, ◌≤◌, List, [], ◌∷◌, ◌≡◌, length, List-cases, Option-cases,
}
use m_awsexp.Common.{some, All, arith, if_both}
use m_awsexp.Common.{inl, inr}
use m_awsexp.Table.Section.{Section, sum, unscaled_widths, calculate_column_widths, wrong_type}
use m_awsexp.Table.Section.{total_width, Outcome, done}
use m_awsexp.Table.Section.Covers.{Covers}
use m_awsexp.Table.Section.Widths.{IsNearest, scaled_widths_lem}
use m_awsexp.Table.Render.{line_break, max, raised, title_lines}
use m_awsexp.Table.Render.{row_lines, plain, is_empty}
use m_awsexp.Table.Render.{render_column_titles, render_rows, render_section}
use mathlib.Core.Path.{subst}
use mathlib.Core.List.{map}

abbrev lost : Outcome ℕ
lost = raised wrong_type

abbrev own_width : Str → Section → Outcome ℕ
own_width title s = done (
    max (length title + 2 + s.indent_level + s.indent_level)
      (sum (unscaled_widths 4 s) + 2 + s.indent_level + s.indent_level))

-- A section's width has room for its title and for its columns.
room :
    (s : Section) (w : ℕ)
    → total_width s ≡ done w
    → (title : Str) × (s.title ≡ some title)
      × (length title + 2 + s.indent_level * 2 ≤ w)
      × (sum (unscaled_widths 4 s) + 2 + s.indent_level * 2 ≤ w)
unfolding total_width
room s w e = elim (Option-cases s.title) [
  | inl untitled ↦ let bad : lost ≡ done w = rw untitled at e in cc
  | inr (title, t) ↦
      let known : own_width title s ≡ done w = rw t at e in (title, t, ground arith, ground arith)
]

-- The widths of a section's columns at the width that is left to it.
module _ (round_scaled : ℕ → ℕ → ℕ → ℕ) (nearest : IsNearest round_scaled) where
  All-unscaled : (ms : List ℕ) → All (λ u. 1 ≤ u) (map (λ m. m + 4) ms)
  All-unscaled [] = tt
  All-unscaled (m ∷ ms) = (omega arith, All-unscaled ms)

  widths_lem :
      (inner m : ℕ) (ms : List ℕ) (s : Section)
      → s.max_widths ≡ m ∷ ms
      → sum (unscaled_widths 4 s) ≤ inner
      → (sum (calculate_column_widths round_scaled 4 (some inner) s) ≡ inner)
        × Covers 1
            (map (λ k. k + 4) (m ∷ ms))
            (calculate_column_widths round_scaled 4 (some inner) s)
  unfolding calculate_column_widths
  widths_lem inner m ms s e h = rw e (
      unfold sum in
      scaled_widths_lem round_scaled nearest inner (map (λ k. k + 4) (m ∷ ms)) (omega arith)
        (All-unscaled (m ∷ ms)) (rw e at h))

  columns-All :
      (inner : ℕ) (s : Section)
      → IsSized s
      → sum (unscaled_widths 4 s) ≤ inner
      → All (IsLine inner) (render_column_titles round_scaled plain inner s)
  unfolding render_column_titles
  columns-All inner s sized h = elim (List-cases s.max_widths) [
    | inl empty ↦
        title_lines-nil inner s.headers _
          (subst (λ (ms : List ℕ). HeaderFits s.headers ms) empty sized.header_fits)
    | inr (m, ms, e) ↦
        let (total, covers) = widths_lem inner m ms s e h in
        subst
          (λ (n : ℕ).
            All (IsLine n)
              (title_lines plain (calculate_column_widths round_scaled 4 (some inner) s) s.headers))
          total
          (title_lines-All m ms _ s.headers
            (subst (λ (ks : List ℕ). HeaderFits s.headers ks) e sized.header_fits) covers)
  ]

  rows-All :
      (inner : ℕ) (s : Section)
      → IsSized s
      → sum (unscaled_widths 4 s) ≤ inner
      → All (IsLine inner) (render_rows round_scaled plain inner s)
  unfolding render_rows
  rows-All inner s sized h = elim (List-cases s.max_widths) [
    | inl empty ↦
        let none : calculate_column_widths round_scaled 4 (some inner) s ≡ [] =
          unfold calculate_column_widths in rw empty in
        rw none (unfold is_empty in if_both (All (IsLine inner)) (is_empty s.rows) tt tt)
    | inr (m, ms, e) ↦
        let (total, covers) = widths_lem inner m ms s e h in
        let fits : All (λ row. Fits row (m ∷ ms)) s.rows = rw e at sized.rows_fit in
        let ws = calculate_column_widths round_scaled 4 (some inner) s in
        let border : IsLine inner (line_break ws) =
          subst (λ (n : ℕ). IsLine n (line_break ws)) total (line_break-IsLine m ms ws covers) in
        let rows : All (IsLine inner) (row_lines plain ws s.rows) =
          subst (λ (n : ℕ). All (IsLine n) (row_lines plain ws s.rows)) total
            (row_lines-All (m ∷ ms) ws s.rows fits covers) in
        if_both (All (IsLine inner)) (is_empty s.rows) tt (
          if_both (All (IsLine inner)) (is_empty ws) tt (
            border,
            All-append (IsLine inner) (row_lines plain ws s.rows) (line_break ws ∷ []) rows
                (border, tt),
          ))
  ]

  -- A section within a table of a sufficient width.
  pub render_section-All :
      (max_width w : ℕ) (s : Section)
      → IsSized s
      → ((title : Str) → s.title ≡ some title → OneLine title)
      → total_width s ≡ done w
      → w ≤ max_width
      → All (IsLine max_width) (render_section round_scaled plain max_width s)
  unfolding render_section plain
  render_section-All max_width w s sized one e h =
      let (title, t, for_title, for_columns) = room s w e in
      let inner = max_width - s.indent_level * 2 in
      let back : inner + s.indent_level * 2 ≡ max_width = omega arith in
      subst (λ (n : ℕ). All (IsLine n) (render_section round_scaled plain max_width s)) back
        (write-All inner s.indent_level _ (
          All-append (IsLine inner) _ _
            (All-append (IsLine inner) _ _ (title-All inner s title t (omega arith) (one title t))
              (columns-All inner s sized (omega arith)))
            (rows-All inner s sized (omega arith))))

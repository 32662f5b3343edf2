-- ===== src/Table/Render/Whole.antt =====
-- A whole table: `render`, the sections turned over where the terminal is too narrow.
use m_awsexp.Common.{
  Str, ℕ, ◌≤◌, Bool, true, false, List, [], ◌∷◌, ◌≡◌, refl, ◌∙◌, All, arith, ltb, ◌&&◌, ◌++◌,
}
use m_awsexp.Common.{some, List-cases, inl, inr, sym}
use m_awsexp.Table.Section.{Section, done, ◌>>=◌, init, total_width}
use m_awsexp.Table.Section.Columns.{IsSized, IsFresh, HasCols, add_row-IsFresh, add_row-HasCols}
use mathlib.Core.Path.{subst}
use m_awsexp.Table.Section.Columns.{
  OneLine, HeaderFits, Fits, HasCols-IsSized, IsFresh-IsSized, All-append,
}
use m_awsexp.Table.Section.Widths.{IsNearest}
use m_awsexp.Table.Render.{add_pairs, to_vertical, convert_to_vertical_table, converted, dashes}
use m_awsexp.Table.Render.{render_sections, render_lines, render, calculate_max_width, plain}
use m_awsexp.Table.Render.OneLine.{OneLine-dashes}
use m_awsexp.Table.Render.Line.{IsLine, length-dashes}
use m_awsexp.Table.Render.Lines.{render_section-All}
use Prim.Native.Nat.{max}

abbrev pub TitleLine : Section → Type 0
TitleLine s = (title : Str) → s.title ≡ some title → OneLine title

-- A section that can be rendered.
pub record IsReady (s : Section) : Type 0 where
  pub titled : (title : Str) × (s.title ≡ some title)
  pub title_line : TitleLine s
  pub sized : IsSized s

add_pairs-HasCols :
    (hs row : List Str) (s : Section)
    → All OneLine hs
    → All OneLine row
    → HasCols 2 s
    → (s' : Section) × (add_pairs hs row s ≡ done s') × HasCols 2 s' × (s'.title ≡ s.title)
unfolding add_pairs
add_pairs-HasCols [] row s oh ow cols = (s, refl, cols, refl)
add_pairs-HasCols (h ∷ hs) [] s oh ow cols = (s, refl, cols, refl)
add_pairs-HasCols (h ∷ hs) (el ∷ row) s (p, ps) (q, qs) cols =
    let (s', e, cols', t) = add_row-HasCols 2 (h ∷ el ∷ []) s (p, (q, tt)) cols refl in
    let (s'', e', cols'', t') = add_pairs-HasCols hs row s' ps qs cols' in
    (s'', rw e e', cols'', t' ∙ t)

add_pairs-IsReady :
    (hs row : List Str) (s : Section)
    → All OneLine hs
    → All OneLine row
    → IsFresh s
    → (title : Str) × (s.title ≡ some title)
    → TitleLine s
    → (s' : Section) × (add_pairs hs row s ≡ done s') × IsReady s'
unfolding add_pairs
add_pairs-IsReady [] row s oh ow fresh t one =
    (s, refl, record { titled = t; title_line = one; sized = IsFresh-IsSized s fresh })
add_pairs-IsReady (h ∷ hs) [] s oh ow fresh t one =
    (s, refl, record { titled = t; title_line = one; sized = IsFresh-IsSized s fresh })
add_pairs-IsReady (h ∷ hs) (el ∷ row) s (p, ps) (q, qs) fresh (title, t) one =
    let (s', e, cols, t') = add_row-IsFresh (h ∷ el ∷ []) s (p, (q, tt)) fresh in
    let (s'', e', cols'', t'') = add_pairs-HasCols hs row s' ps qs cols in
    (
      s'',
      rw e e',
      record {
        titled = (title, t'' ∙ t' ∙ t);
        title_line = λ x u. one x (sym (t'' ∙ t') ∙ u);
        sized = HasCols-IsSized 2 s'' cols'';
      },
    )

headers_OneLine : (s : Section) (hs : List Str) → IsSized s → s.headers ≡ hs → All OneLine hs
headers_OneLine s [] sized e = tt
headers_OneLine s (h ∷ hs) sized e =
    (subst (λ (x : List Str). HeaderFits x s.max_widths) e sized.header_fits).1

row_OneLine :
    (s : Section) (row : List Str) (rows : List (List Str))
    → IsSized s
    → s.rows ≡ row ∷ rows
    → All OneLine row
row_OneLine s row rows sized e =
    (subst (λ (x : List (List Str)). All (λ r. Fits r s.max_widths) x) e sized.rows_fit).0.1

to_vertical-IsReady :
    (s : Section) → IsReady s → (s' : Section) × (to_vertical s ≡ done s') × IsReady s'
unfolding to_vertical
to_vertical-IsReady s ready = elim (List-cases s.rows) [
  | inl no_rows ↦ (s, rw no_rows refl, ready)
  | inr (row, more, rows) ↦ elim (List-cases more) [
    | inr (next, rest, several) ↦ (s, ground arith, ready)
    | inl single ↦ elim (List-cases s.headers) [
      | inl no_headers ↦ (s, ground arith, ready)
      | inr (h, hs, headers) ↦
          let turned = record init { title = s.title; indent_level = s.indent_level } in
          let fresh : IsFresh turned = record {
            uncounted = refl;
            no_widths = refl;
            no_headers = refl;
            no_rows = refl;
          } in
          let (s', e, ready') =
            add_pairs-IsReady (h ∷ hs) row turned (headers_OneLine s (h ∷ hs) ready.sized headers)
              (row_OneLine s row [] ready.sized (ground arith)) fresh ready.titled
              ready.title_line in
          (s', ground arith, ready')
    ]
  ]
]

convert-IsReady :
    (ss : List Section)
    → All IsReady ss
    → (ss' : List Section) × (convert_to_vertical_table ss ≡ done ss') × All IsReady ss'
unfolding convert_to_vertical_table
convert-IsReady [] h = ([], refl, tt)
convert-IsReady (s ∷ ss) (h, hs) =
    let (s', e, ready) = to_vertical-IsReady s h in
    let (ss', e', readies) = convert-IsReady ss hs in (s' ∷ ss', rw e (rw e'), (ready, readies))

-- A width that is enough for a section.
abbrev Within : ℕ → Section → Type 0
Within w s = (v : ℕ) × (total_width s ≡ done v) × (v ≤ w)

Within-mono : (w v : ℕ) (ss : List Section) → w ≤ v → All (Within w) ss → All (Within v) ss
Within-mono w v [] h k = tt
Within-mono w v (s ∷ ss) h ((u, e, k), ks) = ((u, e, omega arith), Within-mono w v ss h ks)

total_width-IsReady : (s : Section) → IsReady s → (v : ℕ) × (total_width s ≡ done v)
unfolding total_width
total_width-IsReady s ready = let (title, t) = ready.titled in rw t (_, refl)

max_width-Within :
    (s : Section) (ss : List Section)
    → All IsReady (s ∷ ss)
    → (w : ℕ) × (calculate_max_width (s ∷ ss) ≡ done w) × All (Within w) (s ∷ ss)
unfolding calculate_max_width
max_width-Within s [] (h, _) =
    let (v, e) = total_width-IsReady s h in (v, e, ((v, e, omega arith), tt))
max_width-Within s (t ∷ ss) (h, hs) =
    let (v, e) = total_width-IsReady s h in
    let (w, e', within) = max_width-Within t ss hs in
    (
      max v w,
      rw e (rw e'),
      ((v, e, omega arith), Within-mono w (max v w) (t ∷ ss) (omega arith) within),
    )

module _ (round_scaled : ℕ → ℕ → ℕ → ℕ) (nearest : IsNearest round_scaled) where
  sections-All :
      (w : ℕ) (ss : List Section)
      → All IsReady ss
      → All (Within w) ss
      → All (IsLine w) (render_sections round_scaled plain w ss)
  unfolding render_sections
  sections-All w [] h k = tt
  sections-All w (s ∷ ss) (h, hs) ((v, e, k), ks) =
      All-append (IsLine w) _ _
        (render_section-All round_scaled nearest w v s h.sized h.title_line e k)
        (sections-All w ss hs ks)

  lines-All :
      (s : Section) (ss : List Section)
      → All IsReady (s ∷ ss)
      → (lines : List Str) × (render_lines round_scaled plain (s ∷ ss) ≡ done lines)
        × ((w : ℕ) × All (IsLine w) lines)
  unfolding render_lines
  lines-All s ss h =
      let (w, e, within) = max_width-Within s ss h in
      (
        (dashes w ++ b'\n' ∷ []) ∷ render_sections round_scaled plain w (s ∷ ss),
        rw e refl,
        (
          w,
          ((dashes w, refl, length-dashes w, OneLine-dashes w), sections-All w (s ∷ ss) h within),
        ),
      )

  converted-SameWidth :
      (narrow : Bool) (s : Section) (ss : List Section)
      → All IsReady (s ∷ ss)
      → (lines : List Str) × ((converted narrow (s ∷ ss) >>= render_lines round_scaled plain)
          ≡ done lines)
        × ((w : ℕ) × All (IsLine w) lines)
  unfolding converted
  converted-SameWidth true s ss (h, hs) =
      let (s', e, ready) = to_vertical-IsReady s h in
      let (ss', e', readies) = convert-IsReady ss hs in
      let (lines, e'', same) = lines-All s' ss' (ready, readies) in
      (lines, unfold convert_to_vertical_table in rw e (rw e' e''), same)
  converted-SameWidth false s ss h = lines-All s ss h

  -- The lines of a table have all the same width: rendering sections of which each has a title and
  -- rows of one length, with its headers if it has any, raises nothing, whether or not they are
  -- turned over for a narrow terminal, and every line that is written is as long as the others.
  pub render-SameWidth :
      (terminal_width : ℕ) (auto_reformat : Bool) (s : Section) (ss : List Section)
      → All IsReady (s ∷ ss)
      → (lines : List Str) × (render round_scaled plain terminal_width auto_reformat (s ∷ ss)
          ≡ done lines)
        × ((w : ℕ) × All (IsLine w) lines)
  unfolding render
  render-SameWidth terminal_width auto_reformat s ss h =
      let (w, e, within) = max_width-Within s ss h in
      rw e (converted-SameWidth (ltb terminal_width w && auto_reformat) s ss h)

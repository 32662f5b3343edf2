-- ===== src/Table/Render/OneLine.antt =====
-- The pieces of a table have no line break where the texts have none.
use m_awsexp.Table.Section.Columns.{OneLine, All-append}
use m_awsexp.Common.{replicate, ◌≢◌}
use m_awsexp.Table.Cells.{spaces, align_left}
use m_awsexp.Common.{Str, ℕ, zero, suc, ◌-◌, List, [], ◌∷◌, ◌++◌, length}
use m_awsexp.Common.{All, arith}
use m_awsexp.Table.Cells.{center_text}
use m_awsexp.Table.Render.{edge, times, further_breaks}
use m_awsexp.Table.Render.{header_cells, row_cells, dashes}

pub OneLine-append : (s t : Str) → OneLine s → OneLine t → OneLine (s ++ t)
OneLine-append s t = All-append _ s t

pub OneLine-replicate : (n c : ℕ) → c ≢ b'\n' → OneLine (replicate n c)
OneLine-replicate zero c h = tt
OneLine-replicate (suc n) c h = (h, OneLine-replicate n c h)

pub OneLine-dashes : (n : ℕ) → OneLine (dashes n)
OneLine-dashes n = OneLine-replicate n b'-' (ground arith)

pub OneLine-spaces : (n : ℕ) → OneLine (spaces n)
OneLine-spaces n = OneLine-replicate n b' ' (ground arith)

pub OneLine-edge : OneLine edge
OneLine-edge = (ground arith, tt)

pub OneLine-times : (n : ℕ) → OneLine (times n edge)
unfolding times
OneLine-times zero = tt
OneLine-times (suc n) = (ground arith, OneLine-times n)

-- A text between spaces and edges.
pub OneLine-padded :
    (left text right : Str) (m n : ℕ)
    → OneLine left
    → OneLine text
    → OneLine right
    → OneLine (left ++ spaces m ++ text ++ spaces n ++ right)
OneLine-padded left text right m n l t r =
    let before = OneLine-append left (spaces m) l (OneLine-spaces m) in
    let filled = OneLine-append (left ++ spaces m) text before t in
    let after = OneLine-append (left ++ spaces m ++ text) (spaces n) filled (OneLine-spaces n) in
    OneLine-append (left ++ spaces m ++ text ++ spaces n) right after r

pub OneLine-center_text :
    (text : Str) (len : ℕ) (left : Str) (n : ℕ)
    → OneLine left
    → OneLine text
    → OneLine (center_text text len left edge n)
unfolding center_text
OneLine-center_text text len left n l t = OneLine-padded left text edge _ _ l t OneLine-edge

pub OneLine-align_left :
    (text : Str) (len : ℕ) (left : Str) (n : ℕ)
    → OneLine left
    → OneLine text
    → OneLine (align_left text len left edge n)
unfolding align_left
OneLine-align_left text len left n l t = OneLine-padded left text edge _ _ l t OneLine-edge

pub OneLine-row_cells :
    (left : Str) (row : List Str) (ws : List ℕ)
    → OneLine left
    → All OneLine row
    → OneLine (row_cells (λ text. text) edge left ws row)
unfolding row_cells
OneLine-row_cells left row [] l h = tt
OneLine-row_cells left [] (w ∷ ws) l h = tt
OneLine-row_cells left (el ∷ row) (w ∷ ws) l (h, hs) =
    OneLine-append _ _ (OneLine-align_left el w left (length el) l h)
      (OneLine-row_cells [] row ws tt hs)

pub OneLine-header_cells :
    (left : Str) (headers : List Str) (ws : List ℕ)
    → OneLine left
    → All OneLine headers
    → OneLine (header_cells (λ text. text) left ws headers)
unfolding header_cells
OneLine-header_cells left headers [] l h = tt
OneLine-header_cells left [] (w ∷ ws) l h = tt
OneLine-header_cells left (x ∷ headers) (w ∷ ws) l (h, hs) =
    OneLine-append _ _ (OneLine-center_text x w left (length x) l h)
      (OneLine-header_cells [] headers ws tt hs)

pub OneLine-further_breaks : (ws : List ℕ) → OneLine (further_breaks ws)
unfolding further_breaks
OneLine-further_breaks [] = tt
OneLine-further_breaks (w ∷ ws) =
    OneLine-append (dashes (w - 1)) _ (OneLine-dashes (w - 1))
      (ground arith, OneLine-further_breaks ws)

-- Dashes between two corners.
pub OneLine-rule : (n : ℕ) → OneLine (b'+' ∷ dashes n ++ b'+' ∷ [])
OneLine-rule n =
    (ground arith, OneLine-append (dashes n) (b'+' ∷ []) (OneLine-dashes n) (ground arith, tt))

-- ===== src/Table/Cells.antt =====
-- `center_text` and `align_left` of table.py, with the text's length as `text_length`, which is how
-- the tables call them. A text times a number below 0 is empty in Python, so each number of spaces
-- is one subtraction that stops at 0.
use m_awsexp.Common.{
  Str, ℕ, ◌+◌, ◌-◌, ◌/◌, ◌≤◌, ◌≡◌, ◌++◌, replicate, length, length-append, Bool-cases, inl, leb→le,
  inr,
}
use m_awsexp.Common.{length-replicate, arith, if◌then◌else◌, leb}

abbrev pub spaces : ℕ → Str
spaces n = replicate n b' '

-- `char_start` is length / 2 - text_length / 2 - 1, and what is left on the right is the length less
-- the right edge, the left edge, `char_start` and the text: all terms below 0 are taken together.
unfoldable pub center_text : Str → ℕ → Str → Str → ℕ → Str
center_text text len left_edge right_edge text_length =
    left_edge
    ++ spaces (len / 2 - (text_length / 2 + 1))
    ++ text
    ++ spaces (
        len
        + (text_length / 2 + 1)
        - (length right_edge + length left_edge + len / 2 + text_length))
    ++ right_edge

unfoldable pub align_left : Str → ℕ → Str → Str → ℕ → Str
align_left text len left_edge right_edge text_length =
    let computed_length = text_length + 2 + length left_edge + length right_edge in
    let padding = if leb computed_length len then 2 else 0 in
    left_edge
    ++ spaces padding
    ++ text
    ++ spaces (len - (length left_edge + padding + text_length + length right_edge))
    ++ right_edge

-- The length that both functions promise, where the text has room between the edges.
pub length-center_text :
    (text : Str) (len : ℕ) (left_edge right_edge : Str)
    → length text + 2 ≤ len
    → length left_edge ≤ 1
    → length right_edge ≤ 1
    → length (center_text text len left_edge right_edge (length text)) ≡ len
unfolding center_text
length-center_text text len left_edge right_edge h l r =
    omega (arith, length-append {0}, length-replicate {0})

pub length-align_left :
    (text : Str) (len : ℕ) (left_edge right_edge : Str)
    → length left_edge + length text + length right_edge ≤ len
    → length (align_left text len left_edge right_edge (length text)) ≡ len
unfolding align_left
length-align_left text len left_edge right_edge h =
    elim (Bool-cases (leb (length text + 2 + length left_edge + length right_edge) len)) [
      | inl fits ↦
          let room = leb→le _ _ fits in
          rw fits (omega (arith, length-append {0}, length-replicate {0}))
      | inr tight ↦ rw tight (omega (arith, length-append {0}, length-replicate {0}))
    ]

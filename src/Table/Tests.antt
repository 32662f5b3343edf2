-- ===== src/Table/Tests.antt =====
-- Runs of the table and of its formatter, and examples of what is proved about them.
use m_awsexp.Table.Section.Columns.{OneLine}
use m_awsexp.Table.Formatter.Regular.{IsDict}
use m_awsexp.Common.{
  Bool, not, ◌==◌, ◌&&◌, Str, ℕ, ◌+◌, ◌*◌, ◌/◌, ◌≡◌, refl, List, [], ◌∷◌, codes, arith, true, inr,
  ◌≤◌, ◌<◌, All,
}
use m_awsexp.Table.Cells.{center_text}
use m_awsexp.Table.Section.{Outcome, done, sum, scaled_widths}
use m_awsexp.Table.Section.Covers.{Covers}
use m_awsexp.Table.Section.Widths.{IsNearest, scaled_widths_lem}
use m_awsexp.Table.Render.{plain}
use m_awsexp.Table.Formatter.{Value, scalar, arr, obj, nil, cons, field, end, format_response}
use m_awsexp.Table.Formatter.Regular.{format_response-SameWidth, Regular}
use native.Mathlib.Nat.{div-mul-le_self, lt-div-mul-add, mul_left_comm, mul_comm}
use m_awsexp.Table.Render.Line.{IsLine}

-- round, away from 0 where two numbers are as near
abbrev half_up : ℕ → ℕ → ℕ → ℕ
half_up max_width total w = (2 * (max_width * w) + total) / (2 * total)

half_up-IsNearest : IsNearest half_up
half_up-IsNearest max_width total w h =
    let a = 2 * (max_width * w) + total in
    let below : a / (2 * total) * (2 * total) ≤ a = div-mul-le_self a (2 * total) in
    let above : a < a / (2 * total) * (2 * total) + 2 * total = lt-div-mul-add (omega arith) in
    let e : a / (2 * total) * (2 * total) ≡ 2 * (total * (a / (2 * total))) =
      omega (arith, mul_left_comm (a / (2 * total)) 2 total, mul_comm (a / (2 * total)) total) in
    (omega arith, omega arith)

-- Two users: a key and a list of tags below each.
abbrev user : Str → Str → Value
user name id =
    obj (field (codes "Name") (scalar name true) (field (codes "Id") (scalar id true) end))

abbrev users : Value
users = obj (
    field (codes "Users")
      (arr (cons (user (codes "ann") (codes "1")) (cons (user (codes "robert") (codes "22")) nil)))
      (field (codes "Marker") (scalar (codes "m") true) end))

abbrev no_repr : Value → Str
no_repr v = []

shown : Outcome (List Str)
unfolding format_response plain
shown = format_response no_repr half_up plain 80 (codes "ListUsers") users

shown_lem :
    shown
    ≡ done (
        codes "--------------------\n"
        ∷ codes "|     ListUsers    |\n"
        ∷ codes "+-----------+------+\n"
        ∷ codes "|  Marker   |  m   |\n"
        ∷ codes "+-----------+------+\n"
        ∷ codes "||      Users     ||\n"
        ∷ codes "|+-----+----------+|\n"
        ∷ codes "|| Id  |  Name    ||\n"
        ∷ codes "|+-----+----------+|\n"
        ∷ codes "||  1  |  ann     ||\n"
        ∷ codes "||  22 |  robert  ||\n"
        ∷ codes "|+-----+----------+|\n"
        ∷ [])
unfolding shown
shown_lem = refl

abbrev no_break : Str → Bool
no_break [] = true
no_break (c ∷ s) = not (c == b'\n') && no_break s

no_break-OneLine : (s : Str) → no_break s ≡ true → OneLine s
no_break-OneLine [] h = tt
no_break-OneLine (c ∷ s) h = (ground (arith, h), no_break-OneLine s (ground (arith, h)))

user-AllRegular :
    (name id : Str) → no_break name ≡ true → no_break id ≡ true → IsDict (user name id)
unfolding Regular
user-AllRegular name id n i = (
  no_break-OneLine (codes "Name") refl,
  no_break-OneLine name n,
  (no_break-OneLine (codes "Id") refl, no_break-OneLine id i, tt),
)

users-Regular : Regular users
unfolding Regular
users-Regular = (
  no_break-OneLine (codes "Users") refl,
  inr (
    user-AllRegular (codes "ann") (codes "1") refl refl,
    (user-AllRegular (codes "robert") (codes "22") refl refl, tt),
  ),
  (no_break-OneLine (codes "Marker") refl, no_break-OneLine (codes "m") refl, tt),
)

format_response-SameWidth_example :
    (lines : List Str) × (format_response no_repr half_up plain 12 (codes "ListUsers") users
      ≡ done lines)
    × ((w : ℕ) × All (IsLine w) lines)
format_response-SameWidth_example =
    format_response-SameWidth no_repr (λ v. tt) half_up half_up-IsNearest 12 (codes "ListUsers")
      users (no_break-OneLine (codes "ListUsers") refl) users-Regular

abbrev columns : List ℕ
columns = 5 ∷ 8 ∷ 8 ∷ []

scaled_widths_lem_example :
    (sum (scaled_widths half_up 24 columns) ≡ 24)
    × Covers 1 columns (scaled_widths half_up 24 columns)
scaled_widths_lem_example =
    scaled_widths_lem half_up half_up-IsNearest 24 columns (unfold sum in omega arith) (omega arith)
      (unfold sum in omega arith)

centred : center_text (codes "abc") 8 (codes "|") (codes "|") 3 ≡ codes "|  abc |"
unfolding center_text
centred = refl

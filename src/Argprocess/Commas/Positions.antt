-- ===== src/Argprocess/Commas/Positions.antt =====
-- Where a list starts in a part: '=[' stands in the part.
use m_awsexp.Common.{Str, ℕ, suc, ◌+◌, ◌≤◌, [], ◌∷◌, Option, none, some}
use m_awsexp.Common.{◌==◌, ◌&&◌, if_both, length, arith}
use m_awsexp.Argprocess.Commas.{find_list, list_start}
use mathlib.Core.Option
use m_awsexp.Argprocess.Commas.{has_char, find_char, find_quote_char_in_part}
use m_awsexp.Common.{ltb, not, if◌then◌else◌}

-- A position of two characters of the text.
abbrev pub InText : Str → Option ℕ → Type 0
InText part none = Unit
InText part (some start) = start + 2 ≤ length part

InText-suc : (c : ℕ) (s : Str) (o : Option ℕ) → InText s o → InText (c ∷ s) (Option.map suc o)
InText-suc c s none h = tt
InText-suc c s (some start) h = omega arith

find_list-InText : (part : Str) → InText part (find_list part)
unfolding find_list
find_list-InText [] = tt
find_list-InText (c ∷ []) = tt
find_list-InText (c ∷ d ∷ s) =
    if_both (InText (c ∷ d ∷ s)) (c == b'=' && d == b'[') {x = some 0} (omega arith)
      (InText-suc c (d ∷ s) (find_list (d ∷ s)) (find_list-InText (d ∷ s)))

pub list_start-InText : (value part : Str) → InText part (list_start value part)
unfolding list_start
list_start-InText value part = at_list (find_list part) (find_list-InText part)
  where
    at_place :
        (start : ℕ) (o : Option ℕ)
        → start + 2 ≤ length part
        → InText part (elim o as (λ _. Option ℕ) [
          | none ↦ none
          | some place ↦ if ltb start place then some start else none
        ])
    at_place start none h = tt
    at_place start (some place) h =
        if_both (InText part) (ltb start place) {x = some start} {y = none} h tt

    at_quote :
        (start : ℕ) (quote : Option ℕ)
        → start + 2 ≤ length part
        → InText part (elim quote as (λ _. Option ℕ) [
          | none ↦ some start
          | some q ↦ elim (find_char q part) as (λ _. Option ℕ) [
            | none ↦ none
            | some place ↦ if ltb start place then some start else none
          ]
        ])
    at_quote start none h = h
    at_quote start (some q) h = at_place start (find_char q part) h

    at_list :
        (o : Option ℕ)
        → InText part o
        → InText part (elim o as (λ _. Option ℕ) [
          | none ↦ none
          | some start ↦
              if not (has_char b']' value)
              then none
              else elim (find_quote_char_in_part part) as (λ _. Option ℕ) [
                | none ↦ some start
                | some q ↦ elim (find_char q part) as (λ _. Option ℕ) [
                  | none ↦ none
                  | some place ↦ if ltb start place then some start else none
                ]
              ]
        ])
    at_list none h = tt
    at_list (some start) h =
        if_both (InText part) (not (has_char b']' value)) {x = none} tt
          (at_quote start (find_quote_char_in_part part) h)

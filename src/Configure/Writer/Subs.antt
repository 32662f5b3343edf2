-- ===== src/Configure/Writer/Subs.antt =====
-- How the loop of _update_subattributes goes through the nested options.
use mathlib.Core.List.{append_assoc}
use m_awsexp.Common.{
  lookup, ℕ, List, Str, Option, All, ◌++◌, length, ◌≡◌, some, ◌∷◌, ◌+◌, ap, suc, sym, [], none,
  arith, length-append, ◌∙◌, str_eq_refl, ◌==◌, true, false, codes, ◌⊎◌, inl, inr, ◌≤◌, ◌-◌,
}
use m_awsexp.Configure.Writer.{
  update_from, subattributes_from, insert_new_values, update_subattributes, nested, indent_of,
  updated, insert_line, new_text, is_section, as_items,
}
use m_awsexp.Configure.Writer.Loop.{insert_line-append}
use m_awsexp.Configure.Line.{option_match, strip}

-- A line of the nested options, none of those that are to be set.
abbrev pub Sub : ℕ → List (Str × Str) → Str → Type 0
Sub start values line =
    (group : Str) × (option_match line ≡ some group)
    × (lookup (strip group) values ≡ none)
    × ((start == indent_of group) ≡ false)
    × (is_section line ≡ false)

subattributes_from-Sub :
    (line : Str) (rest : List Str) (i : ℕ) (current : Option ℕ) (contents : List Str)
    (values : List (Str × Str)) (start : ℕ)
    → Sub start values line
    → (n : ℕ) × (subattributes_from (line ∷ rest) i current contents values start
        ≡ subattributes_from rest (suc i) (some n) contents values start)
unfolding subattributes_from
subattributes_from-Sub line rest i current contents values start
      (group, o, other, deep, no_section) =
    (indent_of group, ground arith)

subattributes_from-append :
    (subs more : List Str) (i n : ℕ) (contents : List Str) (values : List (Str × Str)) (start : ℕ)
    → All (Sub start values) subs
    → (m : ℕ) × (subattributes_from (subs ++ more) i (some n) contents values start
        ≡ subattributes_from more (i + length subs) (some m) contents values start)
subattributes_from-append [] more i n contents values start h =
    let e : i + 0 ≡ i = omega arith in (n, rw e)
subattributes_from-append (l ∷ ls) more i n contents values start (h, hs) =
    let (k, one) = subattributes_from-Sub l (ls ++ more) i (some n) contents values start h in
    let (m, rest) = subattributes_from-append ls more (suc i) k contents values start hs in
    let e : i + suc (length ls) ≡ suc i + length ls = omega arith in (m, rw e (one ∙ rest))

pub subattributes_from-subs :
    (sub : Str) (subs more : List Str) (i : ℕ) (contents : List Str) (values : List (Str × Str))
    (start : ℕ)
    → All (Sub start values) (sub ∷ subs)
    → (m : ℕ) × (subattributes_from ((sub ∷ subs) ++ more) i none contents values start
        ≡ subattributes_from more (i + length (sub ∷ subs)) (some m) contents values start)
subattributes_from-subs sub subs more i contents values start (deep, deeps) =
    let (n, one) = subattributes_from-Sub sub (subs ++ more) i none contents values start deep in
    let (m, two) = subattributes_from-append subs more (suc i) n contents values start deeps in
    let e : i + suc (length subs) ≡ suc i + length subs = omega arith in (m, rw e (one ∙ two))

-- The line that the nested options end at: an option of the outer indent, or a header.
abbrev pub Ends : ℕ → List (Str × Str) → Str → Type 0
Ends start values line =
    ((group : Str) × (option_match line ≡ some group)
      × (lookup (strip group) values ≡ none)
      × ((start == indent_of group) ≡ true))
    ⊎ ((option_match line ≡ none) × (is_section line ≡ true))

pub subattributes_from-Ends :
    (line : Str) (rest : List Str) (i n : ℕ) (contents : List Str) (values : List (Str × Str))
    (start : ℕ)
    → 1 ≤ i
    → Ends start values line
    → subattributes_from (line ∷ rest) i (some n) contents values start
      ≡ updated (insert_line i (new_text (codes "    ") (as_items values)) contents)
unfolding subattributes_from insert_new_values
subattributes_from-Ends line rest i n contents values start positive
      (inl (group, o, other, reached)) =
    let e : suc (i - 1) ≡ i = omega arith in ground arith
subattributes_from-Ends line rest i n contents values start positive (inr (no_option, section)) =
    let e : suc (i - 1) ≡ i = omega arith in ground arith

pub update_from-nested :
    (line : Str) (rest : List Str) (j last : ℕ) (contents : List Str) (key group : Str)
    (values : List (Str × Str))
    → option_match line ≡ some group
    → strip group ≡ key
    → update_from (line ∷ rest) j last contents ((key, nested values) ∷ [])
      ≡ update_subattributes rest j contents values (indent_of group)
unfolding update_from lookup
update_from-nested line rest j last contents key group values option name =
    let same = str_eq_refl key in ground arith

through-append :
    (before : List Str) (header : Str) (others : List Str) (line : Str) (subs rest : List Str)
    → before ++ header ∷ (others ++ line ∷ (subs ++ rest))
      ≡ (before ++ header ∷ (others ++ line ∷ subs)) ++ rest
through-append before header others line subs rest =
    ap (λ ls. before ++ header ∷ ls) (sym (append_assoc others (line ∷ subs) rest))
    ∙ sym (append_assoc before (header ∷ (others ++ line ∷ subs)) rest)

length-through :
    (before : List Str) (header : Str) (others : List Str) (line : Str) (subs : List Str)
    → length (before ++ header ∷ (others ++ line ∷ subs))
      ≡ suc (suc (length before) + length others) + length subs
length-through before header others line subs = omega (
  arith,
  length-append before (header ∷ (others ++ line ∷ subs)),
  length-append others (line ∷ subs),
)

-- An insertion below the nested options.
pub insert_line-through :
    (before : List Str) (header : Str) (others : List Str) (line : Str) (subs rest : List Str)
    (new : Str)
    → insert_line
        (suc (suc (length before) + length others) + length subs)
        new
        (before ++ header ∷ (others ++ line ∷ (subs ++ rest)))
      ≡ before ++ header ∷ (others ++ line ∷ (subs ++ new ∷ rest))
insert_line-through before header others line subs rest new =
    let pre = before ++ header ∷ (others ++ line ∷ subs) in
    rw
      (
        sym (length-through before header others line subs),
        through-append before header others line subs rest,
        through-append before header others line subs (new ∷ rest),
      )
      (insert_line-append pre new rest)

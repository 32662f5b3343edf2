-- ===== src/Configure/Writer/Loop.antt =====
-- How the loop of _update_section_contents goes through a section.
use mathlib.Core.List.{append_assoc}
use m_awsexp.Common.{
  lookup, remove, ℕ, Str, List, ◌∷◌, All, ◌≡◌, ◌⊎◌, suc, ◌++◌, none, length, [], some, refl, take,
  ◌+◌, ap, arith, inl, false, drop, Option-cases, ◌∙◌, inr, Bool-cases, sym, take-append-drop, true,
  str_eq_refl,
}
use m_awsexp.Configure.Writer.{
  Update, Items, update_from, concat, insert_line, set_line, at_end, updated, insert_new_values,
  is_section, new_text, find_section_start, update_config, update_section_contents, readlines,
  scalar, option_line,
}
use m_awsexp.Configure.Line.{option_match, strip, is_header}

pub concat-append : (xs ys : List Str) → concat (xs ++ ys) ≡ concat xs ++ concat ys
concat-append [] ys = refl
concat-append (x ∷ xs) ys = rw (concat-append xs ys, append_assoc x (concat xs) (concat ys))

-- At the end of the lines before it.
pub set_line-append :
    (pre : List Str) (old new : Str) (post : List Str)
    → set_line (length pre) new (pre ++ old ∷ post) ≡ pre ++ new ∷ post
set_line-append [] old new post = refl
set_line-append (l ∷ pre) old new post = ap (◌∷◌ l) (set_line-append pre old new post)

pub insert_line-append :
    (pre : List Str) (new : Str) (post : List Str)
    → insert_line (length pre) new (pre ++ post) ≡ pre ++ new ∷ post
insert_line-append [] new post = refl
insert_line-append (l ∷ pre) new post = ap (◌∷◌ l) (insert_line-append pre new post)

pub concat-insert_line :
    (n : ℕ) (contents : List Str) → concat (insert_line n [] contents) ≡ concat contents
concat-insert_line n contents =
    concat-append (take n contents) ([] ∷ drop n contents)
    ∙ sym (concat-append (take n contents) (drop n contents))
    ∙ ap concat (take-append-drop n contents)

-- The loop passes a line: it is neither an option nor a header, or an option of no interest.
abbrev pub Plain : Str → Type 0
Plain line = (option_match line ≡ none) × (is_section line ≡ false)

abbrev pub Other : Items → Str → Type 0
Other new_values line =
    (group : Str) × (option_match line ≡ some group) × (lookup (strip group) new_values ≡ none)

abbrev pub Passes : Items → Str → Type 0
Passes new_values line = Plain line ⊎ Other new_values line

unfoldable pub last_option : List Str → ℕ → ℕ → ℕ
last_option [] j last = last
last_option (l ∷ ls) j last = elim (option_match l) [
  | none ↦ last_option ls (suc j) last
  | some group ↦ last_option ls (suc j) j
]

pub update_from-Plain :
    (line : Str) (rest : List Str) (j last : ℕ) (contents : List Str) (new_values : Items)
    → Plain line
    → update_from (line ∷ rest) j last contents new_values
      ≡ update_from rest (suc j) last contents new_values
unfolding update_from
update_from-Plain line rest j last contents new_values (a, b) = ground arith

pub update_from-Other :
    (line : Str) (rest : List Str) (j last : ℕ) (contents : List Str) (new_values : Items)
    → Other new_values line
    → update_from (line ∷ rest) j last contents new_values
      ≡ update_from rest (suc j) j contents new_values
unfolding update_from
update_from-Other line rest j last contents new_values (group, a, b) = ground arith

pub update_from-Passes :
    (lines more : List Str) (j last : ℕ) (contents : List Str) (new_values : Items)
    → All (Passes new_values) lines
    → update_from (lines ++ more) j last contents new_values
      ≡ update_from more (j + length lines) (last_option lines j last) contents new_values
unfolding last_option
update_from-Passes [] more j last contents new_values h = let e : j + 0 ≡ j = omega arith in rw e
update_from-Passes (l ∷ ls) more j last contents new_values (inl plain, h) =
    let e : j + suc (length ls) ≡ suc j + length ls = omega arith in
    let next = update_from-Passes ls more (suc j) last contents new_values h in
    rw (e, last_option, plain.0)
      (update_from-Plain l (ls ++ more) j last contents new_values plain ∙ next)
update_from-Passes (l ∷ ls) more j last contents new_values (inr other, h) =
    let e : j + suc (length ls) ≡ suc j + length ls = omega arith in
    let next = update_from-Passes ls more (suc j) j contents new_values h in
    rw (e, last_option, other.1)
      (update_from-Other l (ls ++ more) j last contents new_values other ∙ next)

-- Once there is nothing left to set the text stays.
abbrev pub HasText : Update → Str → Type 0
HasText u text = (contents : List Str) × (u ≡ updated contents) × (concat contents ≡ text)

pub update_from_nil :
    (rest : List Str) (j last : ℕ) (contents : List Str)
    → HasText (update_from rest j last contents []) (concat contents)
unfolding update_from at_end lookup insert_new_values new_text
update_from_nil [] j last contents = (contents, refl, refl)
update_from_nil (line ∷ rest) j last contents = elim (Option-cases (option_match line)) [
  | inl no_option ↦ elim (Bool-cases (is_section line)) [
    | inl section ↦
        (insert_line (suc last) [] contents, ground arith, concat-insert_line (suc last) contents)
    | inr no_section ↦
        rw (update_from-Plain line rest j last contents [] (no_option, no_section))
          (update_from_nil rest (suc j) last contents)
  ]
  | inr (group, option) ↦
      rw (update_from-Other line rest j last contents [] (group, option, refl))
        (update_from_nil rest (suc j) j contents)
]

pub find_section_start-append :
    (section_name : Str) (before : List Str) (header : Str) (rest : List Str)
    → All (λ l. is_header section_name l ≡ false) before
    → is_header section_name header ≡ true
    → find_section_start (before ++ header ∷ rest) section_name ≡ some (length before)
unfolding find_section_start
find_section_start-append section_name [] header rest h k = ground arith
find_section_start-append section_name (l ∷ before) header rest (n, h) k =
    let next = find_section_start-append section_name before header rest h k in ground arith

drop-section :
    (before : List Str) (header : Str) (rest : List Str)
    → drop (suc (length before)) (before ++ header ∷ rest) ≡ rest
drop-section [] header rest = refl
drop-section (l ∷ before) header rest = drop-section before header rest

-- The lines of a file in which `section_name` is found: those before the header, the header, and
-- the rest.
abbrev pub Found : Str → List Str → Str → Type 0
Found section_name before header =
    All (λ l. is_header section_name l ≡ false) before × (is_header section_name header ≡ true)

pub update_section_contents-Found :
    (section_name : Str) (before : List Str) (header : Str) (rest : List Str) (new_values : Items)
    → Found section_name before header
    → let j = suc (length before) in
      update_section_contents (before ++ header ∷ rest) section_name new_values
      ≡ update_from rest j j (before ++ header ∷ rest) new_values
unfolding update_section_contents
update_section_contents-Found section_name before header rest new_values (h, k) =
    let start = find_section_start-append section_name before header rest h k in
    let below = drop-section before header rest in ground arith

-- The text of the file, when its lines are as said.
pub update_config-HasText :
    (text : Str) (contents : List Str) (section_name : Str) (new_values : Items) (after : Str)
    → readlines text ≡ contents
    → HasText (update_section_contents contents section_name new_values) after
    → update_config (some text) section_name new_values ≡ some after
unfolding update_config
update_config-HasText text contents section_name new_values after e (c, u, h) =
    let same = ap (λ ls. update_section_contents ls section_name new_values) e ∙ u in ground arith

update_from-Scalar :
    (line : Str) (rest : List Str) (j last : ℕ) (contents : List Str) (key value group : Str)
    → option_match line ≡ some group
    → strip group ≡ key
    → update_from (line ∷ rest) j last contents ((key, scalar value) ∷ [])
      ≡ update_from rest (suc j) j (set_line j (option_line [] key value) contents) []
unfolding update_from lookup remove
update_from-Scalar line rest j last contents key value group option name =
    let same = str_eq_refl key in ground arith

pub set_HasText :
    (pre : List Str) (line : Str) (more : List Str) (last : ℕ) (key value group : Str)
    → option_match line ≡ some group
    → strip group ≡ key
    → HasText
        (update_from
          (line ∷ more)
          (length pre)
          last
          (pre ++ line ∷ more)
          ((key, scalar value) ∷ []))
        (concat (pre ++ option_line [] key value ∷ more))
set_HasText pre line more last key value group option name =
    let j = length pre in
    let new = option_line [] key value in
    rw
      (
        update_from-Scalar line more j last (pre ++ line ∷ more) key value group option name,
        set_line-append pre line new more,
      )
      (update_from_nil more (suc j) j (pre ++ new ∷ more))

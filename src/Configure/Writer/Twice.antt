-- ===== src/Configure/Writer/Twice.antt =====
-- The section that the writer has appended is found when it writes again.
use mathlib.Core.List.{append_assoc}
use m_awsexp.Common.{
  ℕ, Str, ◌≡◌, Free, List, All, ◌∷◌, ◌++◌, codes, [], sym, false, ap, ◌∙◌, arith, some, none, refl,
}
use m_awsexp.Configure.Writer.{
  new_text, find_section_start, update_config, update_section_contents, readlines, option_line,
  section_text, Items, scalar,
}
use m_awsexp.Configure.Writer.Text.{Complete, readlines-line, readlines-append, concat-readlines}
use m_awsexp.Configure.Line.{is_header}
use m_awsexp.Configure.Writer.Names.{SectionName, Key, option_match-option_line, is_header-own}
use m_awsexp.Configure.Writer.Loop.{Found, concat-append}
use m_awsexp.Configure.Writer.Scalars.{update_config-existing}

find_section_start-none :
    (name : Str) (lines : List Str)
    → All (λ l. is_header name l ≡ false) lines
    → find_section_start lines name ≡ none
unfolding find_section_start
find_section_start-none name [] h = refl
find_section_start-none name (l ∷ ls) (h, hs) =
    let rest = find_section_start-none name ls hs in ground arith

update_config-missing :
    (text name : Str) (new_values : Items)
    → All (λ l. is_header name l ≡ false) (readlines text)
    → update_config (some text) name new_values ≡ some (text ++ section_text name new_values)
unfolding update_config update_section_contents
update_config-missing text name new_values h =
    let e = find_section_start-none name (readlines text) h in ground arith

Free-append : (d : ℕ) (s t : Str) → Free d s → Free d t → Free d (s ++ t)
Free-append d [] t f g = g
Free-append d (c ∷ s) t (n, f) g = (n, Free-append d s t f g)

-- A text with one newline, at its end.
abbrev pub Line : Str → Type 0
Line l = (body : Str) × (l ≡ body ++ b'\n' ∷ []) × Free b'\n' body

readlines-Line : (l s : Str) → Line l → readlines (l ++ s) ≡ l ∷ readlines s
readlines-Line l s (body, e, f) = rw (e, append_assoc body (b'\n' ∷ []) s) (readlines-line body s f)

header-Line : (name : Str) → Free b'\n' name → Line (b'[' ∷ (name ++ codes "]\n"))
header-Line name f = (
  b'[' ∷ (name ++ b']' ∷ []),
  ap (◌∷◌ b'[') (sym (append_assoc name (b']' ∷ []) (b'\n' ∷ []))),
  ((λ e. omega arith), Free-append b'\n' name (b']' ∷ []) f ((λ e. omega arith), tt)),
)

option_line-Line :
    (key value : Str) → Free b'\n' key → Free b'\n' value → Line (option_line [] key value)
option_line-Line key value f g = (
  key ++ (codes " = " ++ value),
  sym (append_assoc key (codes " = " ++ value) (b'\n' ∷ [])),
  Free-append b'\n' key (codes " = " ++ value) f
      ((λ e. omega arith), ((λ e. omega arith), ((λ e. omega arith), g))),
)

-- What is written for a new section and one key, as lines.
readlines-section_text :
    (name key value : Str)
    → Free b'\n' name
    → Free b'\n' key
    → Free b'\n' value
    → readlines (section_text name ((key, scalar value) ∷ []))
      ≡ (b'[' ∷ (name ++ codes "]\n")) ∷ option_line [] key value ∷ []
unfolding new_text readlines
readlines-section_text name key value f g h =
    let header = b'[' ∷ (name ++ codes "]\n") in
    let line = option_line [] key value in
    readlines-Line header (line ++ []) (header-Line name f)
    ∙ ap (◌∷◌ header) (readlines-Line line [] (option_line-Line key value g h))

-- In a file that is empty or ends with a newline and has no such section, a value that was set and
-- is set again is as if it had only been set the second time. The names and the first value are
-- on one line, the key has no delimiter and no space at its ends, the section no closing bracket.
pub update_config-twice :
    (text name : Str) (c : ℕ) (k first second after : Str)
    → Complete text
    → All (λ l. is_header name l ≡ false) (readlines text)
    → SectionName name
    → Key c k
    → Free b'\n' first
    → update_config (some text) name ((c ∷ k, scalar first) ∷ []) ≡ some after
    → update_config (some after) name ((c ∷ k, scalar second) ∷ [])
      ≡ update_config (some text) name ((c ∷ k, scalar second) ∷ [])
unfolding new_text
update_config-twice text name c k first second after complete missing (full, f, g)
      (solid, right, delimiters, newlines) line written =
    let key = c ∷ k in
    let header = b'[' ∷ (name ++ codes "]\n") in
    let once = section_text name ((key, scalar first) ∷ []) in
    let e : after ≡ text ++ once =
      let m = update_config-missing text name ((key, scalar first) ∷ []) missing in cc in
    let lines : readlines after ≡ readlines text ++ header ∷ option_line [] key first ∷ [] =
      rw (e, readlines-append text once complete)
        (ap (λ ls. readlines text ++ ls) (readlines-section_text name key first g newlines line)) in
    let (group, option, same) =
      option_match-option_line c k first (solid, right, delimiters, newlines) in
    let found : Found name (readlines text) header = (missing, is_header-own name (full, f, g)) in
    update_config-existing after name (readlines text) header [] (option_line [] key first) [] key
      second group lines found tt option same
    ∙ ap some (
        concat-append (readlines text) (header ∷ option_line [] key second ∷ [])
        ∙ ap (λ t. t ++ section_text name ((key, scalar second) ∷ [])) (concat-readlines text))
    ∙ sym (update_config-missing text name ((key, scalar second) ∷ []) missing)

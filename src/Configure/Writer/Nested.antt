-- ===== src/Configure/Writer/Nested.antt =====
-- Setting a value that is nested under an option of the section.
use m_awsexp.Common.{
  Str, List, ◌++◌, ◌∷◌, All, ◌≡◌, [], some, suc, length, ◌+◌, none, codes, ◌∙◌, arith, ap, ℕ, refl,
}
use m_awsexp.Configure.Writer.Loop.{
  Found, Passes, update_section_contents-Found, update_from-Passes, last_option,
  update_config-HasText,
}
use m_awsexp.Configure.Writer.{
  readlines, update_section_contents, nested, indent_of, subattributes_from, update_config, concat,
  new_text, as_items, insert_line, update_subattributes, unbound_local,
}
use m_awsexp.Configure.Writer.Subs.{
  Sub, Ends, subattributes_from-subs, subattributes_from-Ends, update_from-nested,
  insert_line-through,
}
use m_awsexp.Configure.Line.{option_match, strip}

-- The file in which the key of a nested value has a line with nested options below it.
abbrev pub Nests : Str → List Str → Str → List Str → Str → Str → Str → List (Str × Str) → Type 0
Nests section_name before header others line key group values =
    Found section_name before header
    × All (Passes ((key, nested values) ∷ [])) others
    × (option_match line ≡ some group)
    × (strip group ≡ key)

update_section_contents-Nests :
    (section_name : Str) (before : List Str) (header : Str) (others : List Str)
    (line key group : Str) (values : List (Str × Str)) (rest : List Str)
    → Nests section_name before header others line key group values
    → let contents = before ++ header ∷ (others ++ line ∷ rest) in
      update_section_contents contents section_name ((key, nested values) ∷ [])
      ≡ update_subattributes rest
          (suc (length before) + length others)
          contents
          values
          (indent_of group)
update_section_contents-Nests section_name before header others line key group values rest
      (found, passes, option, name) =
    let new_values = (key, nested values) ∷ [] in
    let below = line ∷ rest in
    let contents = before ++ header ∷ (others ++ below) in
    let j = suc (length before) in
    update_section_contents-Found section_name before header (others ++ below) new_values found
    ∙ update_from-Passes others below j j contents new_values passes
    ∙ update_from-nested line rest (j + length others) (last_option others j j) contents key group
        values option name

-- In a file whose section has a line for the key and, below it, nested options, none of them to be
-- set, up to the next option of the outer indent or the next header, the new nested values go
-- right below those nested options, and the rest of the text stays.
pub update_config-new_nested :
    (text section_name : Str) (before : List Str) (header : Str) (others : List Str)
    (line key group : Str) (values : List (Str × Str)) (sub : Str) (subs : List Str) (next : Str)
    (more : List Str)
    → readlines text ≡ before ++ header ∷ (others ++ line ∷ ((sub ∷ subs) ++ next ∷ more))
    → Nests section_name before header others line key group values
    → All (Sub (indent_of group) values) (sub ∷ subs)
    → Ends (indent_of group) values next
    → update_config (some text) section_name ((key, nested values) ∷ [])
      ≡ some (
          concat (
            before
            ++ header
              ∷ (others
                  ++ line
                    ∷ ((sub ∷ subs) ++ new_text (codes "    ") (as_items values) ∷ next ∷ more))))
unfolding update_subattributes
update_config-new_nested text section_name before header others line key group values sub subs next
      more lines nests deep ends =
    let start = indent_of group in
    let rest = next ∷ more in
    let contents = before ++ header ∷ (others ++ line ∷ ((sub ∷ subs) ++ rest)) in
    let i = suc (suc (length before) + length others) in
    let new = new_text (codes "    ") (as_items values) in
    let first =
      update_section_contents-Nests section_name before header others line key group values
        (sub ∷ (subs ++ rest)) nests in
    let (m, passed) = subattributes_from-subs sub subs rest i contents values start deep in
    let end =
      subattributes_from-Ends next more (i + length (sub ∷ subs)) m contents values start
        (omega arith) ends in
    update_config-HasText text contents section_name ((key, nested values) ∷ []) _ lines (
      insert_line (i + length (sub ∷ subs)) new contents,
      first ∙ passed ∙ end,
      ap concat (insert_line-through before header others line (sub ∷ subs) rest new),
    )

-- No option follows, as at the end of the file or before a comment.
abbrev pub NoOption : List Str → Type 0
NoOption [] = Unit
NoOption (l ∷ ls) = option_match l ≡ none

update_subattributes-NoOption :
    (rest : List Str) (index : ℕ) (contents : List Str) (values : List (Str × Str)) (start : ℕ)
    → NoOption rest
    → update_subattributes rest index contents values start ≡ unbound_local
unfolding update_subattributes subattributes_from
update_subattributes-NoOption [] index contents values start h = refl
update_subattributes-NoOption (l ∷ ls) index contents values start h = ground arith

-- In a file whose section has a line for the key and no option on the next line, or no next line,
-- setting a nested value ends with the UnboundLocalError, and the file is not written.
pub update_config-unbound_local :
    (text section_name : Str) (before : List Str) (header : Str) (others : List Str)
    (line key group : Str) (values : List (Str × Str)) (rest : List Str)
    → readlines text ≡ before ++ header ∷ (others ++ line ∷ rest)
    → Nests section_name before header others line key group values
    → NoOption rest
    → update_config (some text) section_name ((key, nested values) ∷ []) ≡ none
unfolding update_config
update_config-unbound_local text section_name before header others line key group values rest lines
      nests h =
    let contents = before ++ header ∷ (others ++ line ∷ rest) in
    let e =
      ap (λ ls. update_section_contents ls section_name ((key, nested values) ∷ [])) lines
      ∙ update_section_contents-Nests section_name before header others line key group values rest
          nests
      ∙ update_subattributes-NoOption rest (suc (length before) + length others) contents values
          (indent_of group) h in
    ground arith

-- ===== src/Configure/Writer/Scalars.antt =====
-- Setting values of a section: in place, or below its last option.
use mathlib.Core.List.{append_assoc, append-nil}
use m_awsexp.Common.{
  ℕ, List, Str, length, ◌++◌, ◌≡◌, ◌+◌, some, ◌∷◌, [], All, suc, arith, length-append, sym, ap, ◌∙◌,
  ends_with, none, true, take, drop,
}
use m_awsexp.Configure.Line.{option_match, strip}
use m_awsexp.Configure.Writer.{
  readlines, insert_line, scalar, update_config, concat, option_line, Items, update_from,
  insert_new_values, Value, at_end, is_section, last_line, updated, new_text,
}
use m_awsexp.Configure.Writer.Loop.{
  Found, Passes, last_option, update_section_contents-Found, update_from-Passes, set_HasText,
  update_config-HasText,
}
use m_awsexp.Configure.Writer.Body.{Body, update_from-Body, insert_line-Body}
use m_awsexp.Configure.Writer.Text.{ends_with-readlines}

length-section :
    (before : List Str) (header : Str) (others : List Str)
    → length (before ++ header ∷ others) ≡ suc (length before) + length others
length-section before header others = omega (arith, length-append before (header ∷ others))

-- In a file whose section has a line for the key, with only other options and plain lines
-- between the header and it, setting the key puts the new line in the place of that line and
-- leaves the rest of the text, whatever follows.
pub update_config-existing :
    (text section_name : Str) (before : List Str) (header : Str) (others : List Str) (line : Str)
    (more : List Str) (key value group : Str)
    → readlines text ≡ before ++ header ∷ (others ++ line ∷ more)
    → Found section_name before header
    → All (Passes ((key, scalar value) ∷ [])) others
    → option_match line ≡ some group
    → strip group ≡ key
    → update_config (some text) section_name ((key, scalar value) ∷ [])
      ≡ some (concat (before ++ header ∷ (others ++ option_line [] key value ∷ more)))
update_config-existing text section_name before header others line more key value group lines found
      passes option name =
    let new_values = (key, scalar value) ∷ [] in
    let contents = before ++ header ∷ (others ++ line ∷ more) in
    let j = suc (length before) in
    let pre = before ++ header ∷ others in
    let place = length-section before header others in
    let old = append_assoc before (header ∷ others) (line ∷ more) in
    let new = append_assoc before (header ∷ others) (option_line [] key value ∷ more) in
    let start =
      update_section_contents-Found section_name before header (others ++ line ∷ more) new_values
        found in
    let passed = update_from-Passes others (line ∷ more) j j contents new_values passes in
    let set = set_HasText pre line more (last_option others j j) key value group option name in
    update_config-HasText text contents section_name new_values _ lines
      (rw (start, passed, sym place, sym old, sym new) set)

update_from-header :
    (next : Str) (more : List Str) (j last : ℕ) (contents : List Str) (new_values : Items)
    → option_match next ≡ none
    → is_section next ≡ true
    → update_from (next ∷ more) j last contents new_values
      ≡ updated (insert_line (suc last) (new_text [] new_values) contents)
unfolding update_from insert_new_values
update_from-header next more j last contents new_values no_option section = ground arith

-- In a file whose section has options, none of them for a key that is to be set, and is followed by
-- another section, the new values go right below the last option, before the plain lines and the
-- next header, and the rest of the text stays.
pub update_config-new :
    (text section_name : Str) (before : List Str) (header : Str) (others : List Str) (option : Str)
    (plain : List Str) (next : Str) (more : List Str) (new_values : Items)
    → readlines text ≡ before ++ header ∷ ((others ++ option ∷ plain) ++ next ∷ more)
    → Found section_name before header
    → Body new_values others option plain
    → option_match next ≡ none
    → is_section next ≡ true
    → update_config (some text) section_name new_values
      ≡ some (
          concat (
            before
            ++ header ∷ (others ++ option ∷ (new_text [] new_values ∷ (plain ++ next ∷ more)))))
update_config-new text section_name before header others option plain next more new_values lines
      found body no_option section =
    let after = next ∷ more in
    let rest = (others ++ option ∷ plain) ++ after in
    let contents = before ++ header ∷ rest in
    let j = suc (length before) in
    let new = new_text [] new_values in
    let start = update_section_contents-Found section_name before header rest new_values found in
    let (k, passed) = update_from-Body new_values others option plain after j contents body in
    let end =
      update_from-header next more k (j + length others) contents new_values no_option section in
    let e : suc (j + length others) + 0 ≡ suc (j + length others) = omega arith in
    let place = insert_line-Body before header others option plain after 0 new in
    update_config-HasText text contents section_name new_values _ lines (
      insert_line (suc (j + length others)) new contents,
      start ∙ passed ∙ end,
      ap concat (ap (λ n. insert_line n new contents) (sym e) ∙ place),
    )

update_from_complete :
    (j last : ℕ) (contents : List Str) (item : Str × Value) (items : Items)
    → ends_with (last_line contents) b'\n' ≡ true
    → update_from [] j last contents (item ∷ items)
      ≡ updated (insert_line (suc last + 1) (new_text [] (item ∷ items)) contents)
unfolding update_from at_end insert_new_values
update_from_complete j last contents item items h =
    let e : suc last + 1 ≡ suc (suc last) = omega arith in rw e (ground arith)

-- In a file that ends with a newline and with the section, in which no option is for a key that is
-- to be set, the new values go below the last option and the one line that follows it, if any.
pub update_config-new_at_end :
    (text section_name : Str) (before : List Str) (header : Str) (others : List Str) (option : Str)
    (plain : List Str) (item : Str × Value) (items : Items)
    → readlines text ≡ before ++ header ∷ (others ++ option ∷ plain)
    → ends_with text b'\n' ≡ true
    → Found section_name before header
    → Body (item ∷ items) others option plain
    → update_config (some text) section_name (item ∷ items)
      ≡ some (
          concat (
            before
            ++ header
              ∷ (others ++ option ∷ (take 1 plain ++ new_text [] (item ∷ items) ∷ drop 1 plain))))
update_config-new_at_end text section_name before header others option plain item items lines
      newline found body =
    let new_values = item ∷ items in
    let rest = (others ++ option ∷ plain) ++ [] in
    let contents = before ++ header ∷ rest in
    let j = suc (length before) in
    let new = new_text [] new_values in
    let start = update_section_contents-Found section_name before header rest new_values found in
    let (k, passed) = update_from-Body new_values others option plain [] j contents body in
    let no_more = append-nil (others ++ option ∷ plain) in
    let lines' : readlines text ≡ contents =
      lines ∙ ap (λ ls. before ++ header ∷ ls) (sym no_more) in
    let complete : ends_with (last_line contents) b'\n' ≡ true =
      rw (sym lines') (ends_with-readlines text b'\n' newline) in
    let end = update_from_complete k (j + length others) contents item items complete in
    let place = insert_line-Body before header others option plain [] 1 new in
    update_config-HasText text contents section_name new_values _ lines' (
      insert_line (suc (j + length others) + 1) new contents,
      start ∙ passed ∙ end,
      ap concat (
          place
          ∙ ap (λ ls. before ++ header ∷ (others ++ option ∷ insert_line 1 new ls))
              (append-nil plain)),
    )

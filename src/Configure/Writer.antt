-- ===== src/Configure/Writer.antt =====
-- ConfigFileWriter of awscli/customizations/configure.py on the lines of a file, and on its text.
pub mod Loop
pub mod Body
pub mod Text
pub mod Scalars
pub mod Subs
pub mod Nested
pub mod Names
pub mod Twice
use mathlib.Core.Option
use m_awsexp.Common.{
  lookup, remove, ℕ, List, str_eq, ends_with, Str, Option, Bool, take, ◌++◌, length, [], suc, some,
  ◌∷◌, none, zero, if◌then◌else◌, ◌-◌, drop, ◌==◌, codes, ◌||◌, true, false,
}
use m_awsexp.Configure.Line.{is_header, option_match, strip, section_match, lstrip}
use mathlib.Core.List.{map}

-- A value of the `new_values` dictionary, which is a list of its items in their order.
pub data Value : Type 0 where
  scalar : Str → Value
  nested : List (Str × Str) → Value

abbrev pub Items : Type 0
Items = List (Str × Value)

-- The contents of the file, SectionNotFoundError, or UnboundLocalError.
pub data Update : Type 0 where
  updated : List Str → Update
  section_not_found unbound_local : Update

-- contents[j] = line
abbrev pub set_line : ℕ → Str → List Str → List Str
set_line j line [] = []
set_line zero line (l ∷ contents) = line ∷ contents
set_line (suc j) line (l ∷ contents) = l ∷ set_line j line contents

-- contents.insert(n, line)
abbrev pub insert_line : ℕ → Str → List Str → List Str
insert_line n line contents = take n contents ++ line ∷ drop n contents

-- '%s%s = %s\n'
abbrev pub option_line : Str → Str → Str → Str
option_line indent key value = indent ++ (key ++ (codes " = " ++ (value ++ b'\n' ∷ [])))

abbrev pub concat : List Str → Str
concat [] = []
concat (l ∷ ls) = l ++ concat ls

abbrev pub deeper : Str → Str
deeper indent = indent ++ codes "    "

-- What _insert_new_values makes of one item.
abbrev pub item_text : Str → Str × Value → Str
item_text indent (key, scalar value) = option_line indent key value
item_text indent (key, nested values) =
    (indent ++ (key ++ codes " =\n"))
    ++ concat (map (λ (subkey, subval). option_line (deeper indent) subkey subval) values)

-- The text that _insert_new_values joins.
unfoldable pub new_text : Str → Items → Str
new_text indent new_values = concat (map (item_text indent) new_values)

-- _insert_new_values
unfoldable pub insert_new_values : ℕ → List Str → Items → Str → List Str
unfolding new_text
insert_new_values line_number contents new_values indent =
    insert_line (suc line_number) (new_text indent new_values) contents

-- _find_section_start; `none` is SectionNotFoundError
unfoldable pub find_section_start : List Str → Str → Option ℕ
unfolding is_header
find_section_start [] section_name = none
find_section_start (line ∷ contents) section_name =
    let rest = find_section_start contents section_name in
    if is_header section_name line then some 0 else Option.map suc rest

-- The indent of an option's line.
abbrev pub indent_of : Str → ℕ
indent_of group = length group - length (lstrip group)

abbrev pub spaces : ℕ → Str
spaces zero = []
spaces (suc n) = b' ' ∷ spaces n

abbrev pub as_items : List (Str × Str) → Items
as_items = map (λ (key, value). (key, scalar value))

abbrev pub is_section : Str → Bool
is_section line = elim (section_match line) [ some header ↦ true | none ↦ false ]

-- `starting_indent == current_indent`, of which the right-hand side may have no value
abbrev pub reaches : ℕ → Option ℕ → Option Bool
reaches starting_indent none = none
reaches starting_indent (some current_indent) = some (starting_indent == current_indent)

-- The rest of a round of _update_subattributes: it breaks off, or goes on with `continued`.
abbrev pub at_indent : Option Bool → Bool → ℕ → List Str → List (Str × Str) → Update → Update
at_indent none section i contents values continued = unbound_local
at_indent (some reached) section i contents values continued =
    if reached || section
    then updated (insert_new_values (i - 1) contents (as_items values) (codes "    "))
    else continued

-- The loop of _update_subattributes from `i` on, where the lines still to come are `rest`.
unfoldable pub subattributes_from :
    List Str → ℕ → Option ℕ → List Str → List (Str × Str) → ℕ → Update
unfolding option_match strip lookup remove section_match lstrip insert_new_values
subattributes_from [] i current_indent contents values starting_indent = updated contents
subattributes_from (line ∷ rest) i current_indent contents values starting_indent =
    elim (option_match line) [
      | none ↦
          at_indent (reaches starting_indent current_indent) (is_section line) i contents values
            (subattributes_from rest (suc i) current_indent contents values starting_indent)
      | some group ↦
          let indent = indent_of group in
          let key_name = strip group in
          elim (lookup key_name values) [
            | none ↦
                at_indent (reaches starting_indent (some indent)) (is_section line) i contents
                  values
                  (subattributes_from rest (suc i) (some indent) contents values starting_indent)
            | some option_value ↦
                let contents' =
                  set_line i (option_line (spaces indent) key_name option_value) contents in
                let values' = remove key_name values in
                at_indent (reaches starting_indent (some indent)) (is_section line) i contents'
                  values'
                  (subattributes_from rest (suc i) (some indent) contents' values' starting_indent)
          ]
    ]

-- _update_subattributes; with no line to come `i` has no value at the end
unfoldable pub update_subattributes : List Str → ℕ → List Str → List (Str × Str) → ℕ → Update
unfolding subattributes_from
update_subattributes [] index contents values starting_indent = unbound_local
update_subattributes (line ∷ rest) index contents values starting_indent =
    subattributes_from (line ∷ rest) (suc index) none contents values starting_indent

abbrev pub last_line : List Str → Str
last_line [] = []
last_line (l ∷ []) = l
last_line (l ∷ m ∷ ls) = last_line (m ∷ ls)

-- What _update_section_contents does after its loop.
unfoldable pub at_end : ℕ → List Str → Items → Update
unfolding ends_with insert_new_values
at_end last_matching_line contents [] = updated contents
at_end last_matching_line contents (item ∷ items) =
    let complete =
      if ends_with (last_line contents) b'\n' then contents else contents ++ codes "\n" ∷ [] in
    updated (insert_new_values (suc last_matching_line) complete (item ∷ items) [])

-- The loop of _update_section_contents from `j` on, where the lines still to come are `rest`.
unfoldable pub update_from : List Str → ℕ → ℕ → List Str → Items → Update
unfolding option_match strip lookup remove section_match lstrip insert_new_values
    update_subattributes at_end
update_from [] j last_matching_line contents new_values =
    at_end last_matching_line contents new_values
update_from (line ∷ rest) j last_matching_line contents new_values = elim (option_match line) [
  | none ↦
      if is_section line
      then updated (insert_new_values last_matching_line contents new_values [])
      else update_from rest (suc j) last_matching_line contents new_values
  | some group ↦
      let key_name = strip group in
      elim (lookup key_name new_values) [
        | none ↦ update_from rest (suc j) j contents new_values
        | some (scalar option_value) ↦
            update_from rest (suc j) j (set_line j (option_line [] key_name option_value) contents)
              (remove key_name new_values)
        | some (nested values) ↦ update_subattributes rest j contents values (indent_of group)
      ]
]

-- _update_section_contents
unfoldable pub update_section_contents : List Str → Str → Items → Update
unfolding find_section_start update_from
update_section_contents contents section_name new_values =
    elim (find_section_start contents section_name) [
      | none ↦ section_not_found
      | some i ↦ update_from (drop (suc i) contents) (suc i) (suc i) contents new_values
    ]

abbrev cons_first : ℕ → List Str → List Str
cons_first c [] = (c ∷ []) ∷ []
cons_first c (l ∷ ls) = (c ∷ l) ∷ ls

-- f.readlines()
unfoldable pub readlines : Str → List Str
readlines [] = []
readlines (c ∷ s) =
    let rest = readlines s in if c == b'\n' then (c ∷ []) ∷ rest else cons_first c rest

-- What _write_new_section appends.
abbrev pub section_text : Str → Items → Str
section_text section_name new_values =
    (b'[' ∷ (section_name ++ codes "]\n")) ++ new_text [] new_values

-- update_config: the text of the file afterwards, by that before if there is a file; `none` is
-- the UnboundLocalError, before the file is written. `section_name` is new_values['__section__'].
unfoldable pub update_config : Option Str → Str → Items → Option Str
unfolding readlines update_section_contents new_text
update_config none section_name new_values = some (section_text section_name new_values)
update_config (some text) section_name new_values =
    elim (update_section_contents (readlines text) section_name new_values) [
      | updated contents ↦ some (concat contents)
      | section_not_found ↦ some (text ++ section_text section_name new_values)
      | unbound_local ↦ none
    ]

-- ===== src/Configure/Line.antt =====
-- What ConfigFileWriter of awscli/customizations/configure.py sees in one line of a file: its
-- two regular expressions, written out for lines with no newline but at their end.
use mathlib.Core.Option
use m_awsexp.Common.{
  ℕ, Bool, starts_with, str_eq, Str, if◌then◌else◌, split, ◌==◌, ◌∷◌, Option, leb, join, ◌||◌, ◌&&◌,
  [], false, none, ◌++◌, some,
}

-- str.isspace for one character
abbrev pub is_space : ℕ → Bool
is_space c =
    leb 9 c && leb c 13
    || leb 28 c && leb c 32
    || c == 133
    || c == 160
    || c == 5760
    || leb 8192 c && leb c 8202
    || leb 8232 c && leb c 8233
    || c == 8239
    || c == 8287
    || c == 12288

unfoldable pub lstrip : Str → Str
lstrip [] = []
lstrip (c ∷ s) = let rest = lstrip s in if is_space c then rest else c ∷ s

unfoldable pub rstrip : Str → Str
rstrip [] = []
rstrip (c ∷ s) = elim (rstrip s) [ [] ↦ if is_space c then [] else c ∷ [] | ◌∷◌ d t ↦ c ∷ d ∷ t ]

unfoldable pub strip : Str → Str
unfolding lstrip rstrip
strip s = rstrip (lstrip s)

-- [:=]
abbrev pub is_delimiter : ℕ → Bool
is_delimiter c = c == b':' || c == b'='

-- The text before the first character of the class; `none` if there is no such character.
unfoldable pub before_first_of : (ℕ → Bool) → Str → Option Str
before_first_of test [] = none
before_first_of test (c ∷ s) =
    let rest = before_first_of test s in if test c then some [] else Option.map (◌∷◌ c) rest

-- group(1) of OPTION_REGEX.search
unfoldable pub option_match : Str → Option Str
unfolding before_first_of
option_match [] = none
option_match (c ∷ s) =
    let rest = option_match s in
    if is_delimiter c then rest else Option.map (◌∷◌ c) (before_first_of is_delimiter s)

-- The group `header` of SECTION_REGEX.search.
unfoldable pub section_match : Str → Option Str
unfolding before_first_of
section_match [] = none
section_match (c ∷ s) =
    let rest = section_match s in
    if c == b'['
    then elim (before_first_of (λ d. d == b']') s) [
      | some (◌∷◌ d header) ↦ some (d ∷ header)
      | some [] ↦ rest
      | none ↦ rest
    ]
    else rest

-- _matches_section, for the header in place of the match around it
unfoldable pub matches_section : Str → Str → Bool
unfolding str_eq split join
matches_section header section_name = elim (split b' ' section_name) [
  | [] ↦ str_eq header section_name
  | ◌∷◌ part [] ↦ str_eq header section_name
  | ◌∷◌ part (◌∷◌ next rest) ↦
      str_eq header section_name
      || str_eq header (part ++ (b' ' ∷ b'"' ∷ (join b' ' (next ∷ rest) ++ b'"' ∷ [])))
]

-- The comment test of _find_section_start.
unfoldable pub is_comment : Str → Bool
unfolding strip starts_with
is_comment line = starts_with (strip line) (b'#' ∷ []) || starts_with (strip line) (b';' ∷ [])

-- Whether _find_section_start returns at this line.
unfoldable pub is_header : Str → Str → Bool
unfolding is_comment section_match matches_section
is_header section_name line = if is_comment line then false else elim (section_match line) [
  | some header ↦ matches_section header section_name
  | none ↦ false
]

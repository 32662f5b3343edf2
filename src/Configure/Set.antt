-- ===== src/Configure/Set.antt =====
-- ConfigureSetCommand of awscli/customizations/configure.py: what `_run_main` hands to the writer.
pub mod Scopes
use m_awsexp.Common.{
  ℕ, Bool, str_eq, split, Str, starts_with, List, codes, false, Option, ◌∷◌, if◌then◌else◌, none,
  ◌||◌, ◌++◌, [], some, ◌==◌, true, drop,
}
use m_awsexp.Configure.Writer.{Value, nested, scalar}

-- The arguments of update_config, and which of the two files it is to write. The name `__section__`
-- itself, which would take the place of the section, is left out.
pub record Target : Type 0 where
  pub credentials_file : Bool
  pub section : Str
  pub varname : Str
  pub value : Value

-- '.' in varname
unfoldable pub contains : ℕ → Str → Bool
contains c [] = false
contains c (d ∷ s) = d == c || contains c s

-- _WRITE_TO_CREDS_FILE
abbrev pub is_written_to_creds_file : Str → Bool
is_written_to_creds_file varname =
    str_eq varname (codes "aws_access_key_id")
    || str_eq varname (codes "aws_secret_access_key")
    || str_eq varname (codes "aws_session_token")

abbrev pub profile_section : Str → Str
profile_section profile = codes "profile " ++ profile

-- The end of _run_main.
unfoldable pub choose_file : Str → Str → Value → Target
unfolding str_eq starts_with
choose_file section varname value =
    if is_written_to_creds_file varname
    then record {
      credentials_file = true;
      section = if starts_with section (codes "profile ") then drop 8 section else section;
      varname = varname;
      value = value;
    }
    else record { credentials_file = false; section = section; varname = varname; value = value }

-- `varname = remaining[0]` and the value under `remaining[1]`; `none` is the IndexError
unfoldable pub scoped : Str → List Str → Str → Option Target
unfolding choose_file
scoped section [] value = none
scoped section (varname ∷ subkey ∷ []) value =
    some (choose_file section varname (nested ((subkey, value) ∷ [])))
scoped section (varname ∷ rest) value = some (choose_file section varname (scalar value))

-- The branch of _run_main for the parts of a name with a dot.
unfoldable pub dotted : Str → List Str → Str → Option Target
unfolding scoped choose_file str_eq
dotted varname [] value = none
dotted varname (part ∷ []) value = none
dotted varname (part ∷ next ∷ rest) value =
    if str_eq part (codes "default")
    then scoped (codes "default") (next ∷ rest) value
    else if str_eq part (codes "profile")
    then scoped (profile_section next) rest value
    else elim rest [
      | [] ↦ some (choose_file part next (scalar value))
      | _ ↦ some (choose_file (codes "default") varname (scalar value))
    ]

-- _run_main, for the profile of the session
unfoldable pub run_main : Option Str → Str → Str → Option Target
unfolding contains split dotted choose_file
run_main profile varname value =
    if contains b'.' varname then dotted varname (split b'.' varname) value else elim profile [
      | none ↦ some (choose_file (codes "default") varname (scalar value))
      | some name ↦ some (choose_file (profile_section name) varname (scalar value))
    ]

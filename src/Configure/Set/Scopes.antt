-- ===== src/Configure/Set/Scopes.antt =====
-- The two ways to name the profile of a setting.
use m_awsexp.Common.{
  ℕ, Str, Option, Free, ◌++◌, split, ◌∷◌, codes, ◌≡◌, false, some, split-append, true, arith, none,
  [], refl, str_eq, split-Free,
}
use m_awsexp.Configure.Set.{run_main, contains, choose_file, profile_section, dotted, scoped}
use m_awsexp.Configure.Writer.{nested}

contains-Free : (c : ℕ) (s : Str) → Free c s → contains c s ≡ false
unfolding contains
contains-Free c [] f = refl
contains-Free c (d ∷ s) (h, f) = rw (contains-Free c s f) (ground arith)

contains-append : (c : ℕ) (s t : Str) → contains c (s ++ c ∷ t) ≡ true
unfolding contains
contains-append c [] t = ground arith
contains-append c (d ∷ s) t = rw (contains, contains-append c s t) (ground arith)

abbrev pub dot : Str → Str → Str
dot s t = s ++ b'.' ∷ t

split-dot : (s t : Str) → Free b'.' s → split b'.' (dot s t) ≡ s ∷ split b'.' t
split-dot s t f = split-append b'.' s t f

-- A profile that is written in front of the name takes the place of the session's, also the default
-- one, and a further part names a value nested under the name. The parts have no dot.
pub run_main-scopes :
    (profile : Option Str) (name varname subkey value : Str)
    → Free b'.' name
    → Free b'.' varname
    → Free b'.' subkey
    → (run_main profile (dot (codes "profile") (dot name varname)) value
        ≡ run_main (some name) varname value)
      × (run_main profile (dot (codes "default") varname) value ≡ run_main none varname value)
      × (run_main profile (dot (codes "profile") (dot name (dot varname subkey))) value
          ≡ some (choose_file (profile_section name) varname (nested ((subkey, value) ∷ []))))
unfolding run_main dotted scoped str_eq
run_main-scopes profile name varname subkey value f g h = (
  rw (split-dot name varname f, split-Free b'.' varname g, run_main, contains-Free b'.' varname g),
  rw (split-Free b'.' varname g, run_main, contains-Free b'.' varname g),
  rw (split-dot name (dot varname subkey) f, split-dot varname subkey g, split-Free b'.' subkey h),
)

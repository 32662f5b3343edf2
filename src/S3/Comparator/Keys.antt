-- ===== src/S3/Comparator/Keys.antt =====
-- Listings in ascending order of their compare keys, and the search for a key in one.
use m_awsexp.Common.{
  Str, str_eq, str_lt, All, if◌then◌else◌, List, ◌≡◌, Bool-cases, ◌∷◌, inl, Option, none, true, [],
  str_eq_iff, arith, some, str_lt_trans, inr, ne_of_str_lt, str_lt_total, refl,
}
use m_awsexp.S3.FileStat.{FileStat}
use m_awsexp.S3.Comparator.{KeyOrder, equal, less_than, greater_than, compare_comp_key}

-- Every key of the listing comes after `k`.
abbrev pub Above : Str → List FileStat → Type 0
Above k = All (λ f. str_lt k f.compare_key ≡ true)

-- "listed in the same order, least to greatest in collation order", and each key once.
abbrev pub IsAscending : List FileStat → Type 0
IsAscending [] = Unit
IsAscending (f ∷ fs) = Above f.compare_key fs × IsAscending fs

-- The file with the key.
unfoldable pub find_key : Str → List FileStat → Option FileStat
find_key k [] = none
find_key k (f ∷ fs) = if str_eq k f.compare_key then some f else find_key k fs

pub Above-trans : (j k : Str) (fs : List FileStat) → str_lt j k ≡ true → Above k fs → Above j fs
Above-trans j k [] h a = tt
Above-trans j k (f ∷ fs) h (a, as') = (str_lt_trans j k f.compare_key h a, Above-trans j k fs h as')

-- A listing above a key does not have it.
pub find_key-Above : (k : Str) (fs : List FileStat) → Above k fs → find_key k fs ≡ none
unfolding find_key
find_key-Above k [] a = refl
find_key-Above k (f ∷ fs) (a, as') =
    ground (arith, ne_of_str_lt k f.compare_key, find_key-Above k fs as')

-- What the comparison of two keys says of them.
abbrev pub Orders : KeyOrder → Str → Str → Type 0
Orders equal j k = j ≡ k
Orders less_than j k = str_lt j k ≡ true
Orders greater_than j k = str_lt k j ≡ true

pub compare_comp_key-Orders :
    (f g : FileStat) → Orders (compare_comp_key f g) f.compare_key g.compare_key
unfolding compare_comp_key
compare_comp_key-Orders f g = elim (Bool-cases (str_eq f.compare_key g.compare_key)) [
  | inl e ↦ rw e ((str_eq_iff f.compare_key g.compare_key).0 e)
  | inr n ↦ elim (Bool-cases (str_lt f.compare_key g.compare_key)) [
    | inl l ↦ rw (n, l) l
    | inr m ↦ rw (n, m) (str_lt_total f.compare_key g.compare_key n m)
  ]
]

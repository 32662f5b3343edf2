-- ===== src/Configure/Writer/Names.antt =====
-- The header and the option that the writer appends are ones that it finds.
use mathlib.Core.List.{append_assoc}
use m_awsexp.Common.{
  ℕ, Bool, Str, ◌≡◌, Free, All, ◌∷◌, ◌≢◌, ◌++◌, [], true, false, starts_with, codes, ◌==◌, refl,
  if◌then◌else◌, arith, ap, str_eq_refl, some, ◌∙◌,
}
use m_awsexp.Configure.Line.{
  matches_section, option_match, rstrip, is_header, section_match, before_first_of, lstrip,
  is_comment, is_space, strip, is_delimiter,
}
use m_awsexp.Configure.Writer.{option_line}

-- The names that are found again: of the section, of the key, and a value on one line.
abbrev pub SectionName : Str → Type 0
SectionName name = (name ≢ []) × Free b']' name × Free b'\n' name

abbrev pub Key : ℕ → Str → Type 0
Key first rest =
    (is_space first ≡ false)
    × (rstrip (first ∷ rest) ≡ first ∷ rest)
    × All (λ c. is_delimiter c ≡ false) (first ∷ rest)
    × Free b'\n' (first ∷ rest)

before_first_of-append :
    (test : ℕ → Bool) (s : Str) (d : ℕ) (t : Str)
    → All (λ c. test c ≡ false) s
    → test d ≡ true
    → before_first_of test (s ++ d ∷ t) ≡ some s
unfolding before_first_of
before_first_of-append test [] d t h k = ground arith
before_first_of-append test (c ∷ s) d t (e, h) k =
    rw (before_first_of, e, before_first_of-append test s d t h k)

test-Free : (d : ℕ) (s : Str) → Free d s → All (λ c. (c == d) ≡ false) s
test-Free d [] f = tt
test-Free d (c ∷ s) (n, f) = (ground arith, test-Free d s f)

rstrip-cons : (c : ℕ) (s : Str) → is_space c ≡ false → (t : Str) × (rstrip (c ∷ s) ≡ c ∷ t)
unfolding rstrip
rstrip-cons c s h =
    elim (rstrip s)
      as (λ r.
        (t : Str) × ((elim r [ [] ↦ if is_space c then [] else c ∷ [] | ◌∷◌ d t ↦ c ∷ d ∷ t ])
          ≡ c ∷ t)) [ [] ↦ ([], rw h) | ◌∷◌ d t ↦ (d ∷ t, refl) ]

is_comment-bracket : (s : Str) → is_comment (b'[' ∷ s) ≡ false
unfolding is_comment strip lstrip starts_with
is_comment-bracket s = let (t, e) = rstrip-cons b'[' s refl in rw e

section_match-own :
    (c : ℕ) (s : Str)
    → Free b']' (c ∷ s)
    → section_match (b'[' ∷ ((c ∷ s) ++ codes "]\n")) ≡ some (c ∷ s)
unfolding section_match
section_match-own c s f =
    let closed =
      before_first_of-append (λ d. d == b']') (c ∷ s) b']' (b'\n' ∷ []) (test-Free b']' (c ∷ s) f)
        refl in
    rw (section_match, closed)

matches_section_refl : (name : Str) → matches_section name name ≡ true
unfolding matches_section
matches_section_refl name = let same = str_eq_refl name in ground arith

pub is_header-own :
    (name : Str) → SectionName name → is_header name (b'[' ∷ (name ++ codes "]\n")) ≡ true
unfolding is_header
is_header-own [] (n, f, g) = absurd (n refl)
is_header-own (c ∷ s) (n, f, g) =
    let one = is_comment-bracket ((c ∷ s) ++ codes "]\n") in
    let two = section_match-own c s f in let three = matches_section_refl (c ∷ s) in ground arith

rstrip-space : (s : Str) → rstrip (s ++ b' ' ∷ []) ≡ rstrip s
unfolding rstrip
rstrip-space [] = refl
rstrip-space (c ∷ s) = rw (rstrip, rstrip-space s)

lstrip-solid : (c : ℕ) (s : Str) → is_space c ≡ false → lstrip (c ∷ s) ≡ c ∷ s
unfolding lstrip
lstrip-solid c s h = ap (λ b. if b then lstrip s else c ∷ s) h

All-snoc :
    (test : ℕ → Bool) (s : Str) (d : ℕ)
    → All (λ c. test c ≡ false) s
    → test d ≡ false
    → All (λ c. test c ≡ false) (s ++ d ∷ [])
All-snoc test [] d h k = (k, tt)
All-snoc test (c ∷ s) d (h, hs) k = (h, All-snoc test s d hs k)

-- The line that is written for a key is one for that key.
pub option_match-option_line :
    (c : ℕ) (k value : Str)
    → Key c k
    → (group : Str) × (option_match (option_line [] (c ∷ k) value) ≡ some group)
      × (strip group ≡ c ∷ k)
unfolding option_match strip
option_match-option_line c k value (solid, right, (d, ds), f) =
    let rest = b' ' ∷ (value ++ b'\n' ∷ []) in
    let found : before_first_of is_delimiter (k ++ b' ' ∷ b'=' ∷ rest) ≡ some (k ++ b' ' ∷ []) =
      rw⁻¹ (append_assoc k (b' ' ∷ []) (b'=' ∷ rest)) (
        before_first_of-append is_delimiter (k ++ b' ' ∷ []) b'=' rest
          (All-snoc is_delimiter k b' ' ds refl) refl) in
    (
      c ∷ (k ++ b' ' ∷ []),
      rw (option_match, d, found),
      ap rstrip (lstrip-solid c (k ++ b' ' ∷ []) solid) ∙ rstrip-space (c ∷ k) ∙ right,
    )

-- ===== src/Common/Text.antt =====
-- Python's text as its code points: equality, order, tests on the two ends, split and join.
use Prim.Native.Char.{code}
use Prim.Native.Nat.{ℕ}
use Prim.Native.String.{String}
use mathlib.Core.Path.{◌≡◌, refl}
use mathlib.Core.Logic.{◌↔◌, ◌≢◌, inl, inr}
use mathlib.Core.Bool.{Bool, true, false, ◌&&◌}
use mathlib.Core.List.{List, [], ◌∷◌, ◌++◌}
use native.Mathlib.Omega.{arith}
use m_awsexp.Common.Lists.{All, drop, length}
use m_awsexp.Common.Tests.{Bool-cases, ltb, ◌==◌, if◌then◌else◌}

abbrev pub Str : Type 0
Str = List ℕ

-- The code points of a literal.
abbrev pub codes : String → Str
codes String.[] = []
codes (String.◌∷◌ c s) = code c ∷ codes s

-- s == t
unfoldable pub str_eq : Str → Str → Bool
str_eq [] [] = true
str_eq [] (d ∷ t) = false
str_eq (c ∷ s) [] = false
str_eq (c ∷ s) (d ∷ t) = c == d && str_eq s t

-- s < t, the order of Python 3: code point by code point
unfoldable pub str_lt : Str → Str → Bool
str_lt s [] = false
str_lt [] (d ∷ t) = true
str_lt (c ∷ s) (d ∷ t) = if c == d then str_lt s t else ltb c d

pub str_eq_iff : (s t : Str) → (str_eq s t ≡ true) ↔ (s ≡ t)
unfolding str_eq
str_eq_iff [] [] = ground arith
str_eq_iff [] (d ∷ t) = ground arith
str_eq_iff (c ∷ s) [] = ground arith
str_eq_iff (c ∷ s) (d ∷ t) = ground (arith, str_eq_iff s t)

pub str_eq_refl : (s : Str) → str_eq s s ≡ true
str_eq_refl s = (str_eq_iff s s).1 refl

pub str_lt_irrefl : (s : Str) → str_lt s s ≡ false
unfolding str_lt
str_lt_irrefl [] = refl
str_lt_irrefl (c ∷ s) = ground (arith, str_lt_irrefl s)

pub str_lt_trans : (s t u : Str) → str_lt s t ≡ true → str_lt t u ≡ true → str_lt s u ≡ true
unfolding str_lt
str_lt_trans s t [] h k = ground arith
str_lt_trans s [] (e ∷ u) h k = ground arith
str_lt_trans [] (d ∷ t) (e ∷ u) h k = refl
str_lt_trans (c ∷ s) (d ∷ t) (e ∷ u) h k = ground (arith, str_lt_trans s t u)

-- Two texts of which neither is equal nor less are in the other order.
pub str_lt_total : (s t : Str) → str_eq s t ≡ false → str_lt s t ≡ false → str_lt t s ≡ true
unfolding str_eq str_lt
str_lt_total [] [] h k = cc
str_lt_total [] (d ∷ t) h k = cc
str_lt_total (c ∷ s) [] h k = refl
str_lt_total (c ∷ s) (d ∷ t) h k = ground (arith, str_lt_total s t)

pub ne_of_str_lt : (s t : Str) → str_lt s t ≡ true → str_eq s t ≡ false
ne_of_str_lt s t h = ground (arith, str_eq_iff s t, str_lt_irrefl s)

-- s.startswith(p)
unfoldable pub starts_with : Str → Str → Bool
starts_with s [] = true
starts_with [] (d ∷ p) = false
starts_with (c ∷ s) (d ∷ p) = c == d && starts_with s p

pub starts_with-append : (p s : Str) → starts_with (p ++ s) p ≡ true
unfolding starts_with
starts_with-append [] s = refl
starts_with-append (c ∷ p) s = ground (arith, starts_with-append p s)

pub starts_with-drop : (s p : Str) → starts_with s p ≡ true → s ≡ p ++ drop (length p) s
unfolding starts_with
starts_with-drop s [] h = refl
starts_with-drop [] (d ∷ p) h = cc
starts_with-drop (c ∷ s) (d ∷ p) h = ground (arith, starts_with-drop s p)

-- s.endswith(c) for one character
unfoldable pub ends_with : Str → ℕ → Bool
ends_with [] c = false
ends_with (d ∷ []) c = d == c
ends_with (d ∷ e ∷ s) c = ends_with (e ∷ s) c

pub ends_with-append_right :
    (p s : Str) (c : ℕ) → ends_with s c ≡ true → ends_with (p ++ s) c ≡ true
unfolding ends_with
ends_with-append_right [] s c h = h
ends_with-append_right (d ∷ []) [] c h = cc
ends_with-append_right (d ∷ []) (e ∷ s) c h = h
ends_with-append_right (d ∷ e ∷ p) s c h = ends_with-append_right (e ∷ p) s c h

-- s.replace(a, b) for single characters
unfoldable pub replace : Str → ℕ → ℕ → Str
replace [] a b = []
replace (c ∷ s) a b = (if c == a then b else c) ∷ replace s a b

pub replace_refl : (s : Str) (c : ℕ) → replace s c c ≡ s
unfolding replace
replace_refl [] c = refl
replace_refl (d ∷ s) c = rw (replace_refl s c) (ground arith)

abbrev before_first : ℕ → List Str → List Str
before_first c [] = (c ∷ []) ∷ []
before_first c (p ∷ ps) = (c ∷ p) ∷ ps

-- s.split(sep) for one character
unfoldable pub split : ℕ → Str → List Str
split sep [] = [] ∷ []
split sep (c ∷ s) = let parts = split sep s in if c == sep then [] ∷ parts else before_first c parts

-- sep.join(parts) for one character
unfoldable pub join : ℕ → List Str → Str
join sep [] = []
join sep (p ∷ []) = p
join sep (p ∷ q ∷ ps) = p ++ sep ∷ join sep (q ∷ ps)

-- parts[-1]
unfoldable pub last_part : List Str → Str
last_part [] = []
last_part (p ∷ []) = p
last_part (p ∷ q ∷ ps) = last_part (q ∷ ps)

pub last_part-cons : (p : Str) (ps : List Str) → ps ≢ [] → last_part (p ∷ ps) ≡ last_part ps
unfolding last_part
last_part-cons p [] h = absurd (h refl)
last_part-cons p (q ∷ ps) h = refl

before_first-ne-nil : (c : ℕ) (ps : List Str) → before_first c ps ≢ []
before_first-ne-nil c [] = λ e. cc
before_first-ne-nil c (p ∷ ps) = λ e. cc

pub split-ne-nil : (sep : ℕ) (s : Str) → split sep s ≢ []
unfolding split
split-ne-nil sep [] = λ e. cc
split-ne-nil sep (c ∷ s) = λ e. ground (arith, before_first-ne-nil c (split sep s))

join-before_first :
    (sep c : ℕ) (ps : List Str) → ps ≢ [] → join sep (before_first c ps) ≡ c ∷ join sep ps
unfolding join
join-before_first sep c [] h = absurd (h refl)
join-before_first sep c (p ∷ []) h = refl
join-before_first sep c (p ∷ q ∷ ps) h = refl

join-cons_nil : (sep : ℕ) (ps : List Str) → ps ≢ [] → join sep ([] ∷ ps) ≡ sep ∷ join sep ps
unfolding join
join-cons_nil sep [] h = absurd (h refl)
join-cons_nil sep (p ∷ ps) h = refl

pub join-split : (sep : ℕ) (s : Str) → join sep (split sep s) ≡ s
unfolding split join
join-split sep [] = refl
join-split sep (c ∷ s) = ground (
  arith,
  join-split sep s,
  join-before_first sep c (split sep s) (split-ne-nil sep s),
  join-cons_nil sep (split sep s) (split-ne-nil sep s),
)

-- `c` does not occur in the text.
abbrev pub Free : ℕ → Str → Type 0
Free c = All (λ d. d ≢ c)

pub split-Free : (c : ℕ) (s : Str) → Free c s → split c s ≡ s ∷ []
unfolding split
split-Free c [] f = refl
split-Free c (d ∷ s) (h, f) = rw (split-Free c s f) (ground arith)

pub split-append : (c : ℕ) (s t : Str) → Free c s → split c (s ++ c ∷ t) ≡ s ∷ split c t
unfolding split
split-append c [] t f = ground arith
split-append c (d ∷ s) t (h, f) = rw (split-append c s t f) (ground arith)

-- The pieces of a text have no separator.
before_first-All_Free :
    (c d : ℕ) (ps : List Str) → d ≢ c → All (Free c) ps → All (Free c) (before_first d ps)
before_first-All_Free c d [] h f = ((h, tt), tt)
before_first-All_Free c d (p ∷ ps) h (f, fs) = ((h, f), fs)

pub split-All_Free : (c : ℕ) (s : Str) → All (Free c) (split c s)
unfolding split
split-All_Free c [] = (tt, tt)
split-All_Free c (d ∷ s) =
    let rest = split-All_Free c s in
    elim (Bool-cases (d == c)) [
      | inl same ↦ rw same (tt, rest)
      | inr other ↦
          rw other (before_first-All_Free c d (split c s) (λ e. ground (arith, other, e)) rest)
    ]

pub last_part-All : (P : Str → Type 0) (ps : List Str) → P [] → All P ps → P (last_part ps)
unfolding last_part
last_part-All P [] n h = n
last_part-All P (p ∷ []) n (h, hs) = h
last_part-All P (p ∷ q ∷ ps) n (h, hs) = last_part-All P (q ∷ ps) n hs

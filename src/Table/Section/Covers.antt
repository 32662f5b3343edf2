-- ===== src/Table/Section/Covers.antt =====
-- Lists of widths with lower bounds, and their sums.
use m_awsexp.Common.{ℕ, ◌+◌, ◌≤◌, List, [], ◌∷◌, ◌++◌, ◌≡◌, length, arith, refl}
use m_awsexp.Common.{All, length-append}
use m_awsexp.Table.Section.{sum}
use mathlib.Core.List.{reverse, reverse-cons}

-- As many widths as bounds, none of them more than `d` below its bound.
abbrev pub Covers : ℕ → List ℕ → List ℕ → Type 0
Covers d [] [] = Unit
Covers d [] (w ∷ ws) = ⊥
Covers d (u ∷ us) [] = ⊥
Covers d (u ∷ us) (w ∷ ws) = (u ≤ w + d) × Covers d us ws

pub Covers-refl : (d : ℕ) (ws : List ℕ) → Covers d ws ws
Covers-refl d [] = tt
Covers-refl d (w ∷ ws) = (omega arith, Covers-refl d ws)

pub Covers-mono : (d e : ℕ) (us ws : List ℕ) → d ≤ e → Covers d us ws → Covers e us ws
Covers-mono d e [] [] h c = tt
Covers-mono d e [] (w ∷ ws) h c = c
Covers-mono d e (u ∷ us) [] h c = c
Covers-mono d e (u ∷ us) (w ∷ ws) h (c, cs) = (omega arith, Covers-mono d e us ws h cs)

pub Covers-trans :
    (d e : ℕ) (us vs ws : List ℕ) → Covers d us vs → Covers e vs ws → Covers (d + e) us ws
Covers-trans d e [] [] [] c k = tt
Covers-trans d e [] [] (w ∷ ws) c k = k
Covers-trans d e [] (v ∷ vs) ws c k = absurd c
Covers-trans d e (u ∷ us) [] ws c k = absurd c
Covers-trans d e (u ∷ us) (v ∷ vs) [] c k = absurd k
Covers-trans d e (u ∷ us) (v ∷ vs) (w ∷ ws) (c, cs) (k, ks) =
    (omega arith, Covers-trans d e us vs ws cs ks)

Covers-append :
    (d : ℕ) (us ws us' ws' : List ℕ)
    → Covers d us ws
    → Covers d us' ws'
    → Covers d (us ++ us') (ws ++ ws')
Covers-append d [] [] us' ws' c k = k
Covers-append d [] (w ∷ ws) us' ws' c k = absurd c
Covers-append d (u ∷ us) [] us' ws' c k = absurd c
Covers-append d (u ∷ us) (w ∷ ws) us' ws' (c, cs) k = (c, Covers-append d us ws us' ws' cs k)

pub Covers-reverse : (d : ℕ) (us ws : List ℕ) → Covers d us ws → Covers d (reverse us) (reverse ws)
Covers-reverse d [] [] c = tt
Covers-reverse d [] (w ∷ ws) c = absurd c
Covers-reverse d (u ∷ us) [] c = absurd c
Covers-reverse d (u ∷ us) (w ∷ ws) (c, cs) =
    rw (reverse-cons u us, reverse-cons w ws)
      (Covers-append d _ _ (u ∷ []) (w ∷ []) (Covers-reverse d us ws cs) (c, tt))

sum-append : (us ws : List ℕ) → sum (us ++ ws) ≡ sum us + sum ws
unfolding sum
sum-append [] ws = omega arith
sum-append (u ∷ us) ws = omega (arith, sum-append us ws)

pub sum-reverse : (ws : List ℕ) → sum (reverse ws) ≡ sum ws
unfolding sum
sum-reverse [] = omega arith
sum-reverse (w ∷ ws) =
    rw (reverse-cons w ws, sum-append (reverse ws) (w ∷ [])) (omega (arith, sum-reverse ws))

pub length-reverse : (ws : List ℕ) → length (reverse ws) ≡ length ws
length-reverse [] = omega arith
length-reverse (w ∷ ws) =
    rw (reverse-cons w ws, length-append (reverse ws) (w ∷ [])) (omega (arith, length-reverse ws))

pub length-Covers : (d : ℕ) (us ws : List ℕ) → Covers d us ws → length us ≡ length ws
length-Covers d [] [] c = refl
length-Covers d [] (w ∷ ws) c = absurd c
length-Covers d (u ∷ us) [] c = absurd c
length-Covers d (u ∷ us) (w ∷ ws) (c, cs) = omega (arith, length-Covers d us ws cs)

pub All-Covers : (us ws : List ℕ) → Covers 0 us ws → All (λ u. 1 ≤ u) us → All (λ w. 1 ≤ w) ws
All-Covers [] [] c p = tt
All-Covers [] (w ∷ ws) c p = absurd c
All-Covers (u ∷ us) [] c p = absurd c
All-Covers (u ∷ us) (w ∷ ws) (c, cs) (p, ps) = (omega arith, All-Covers us ws cs ps)

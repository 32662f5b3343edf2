-- ===== src/Table/Section/Passes.antt =====
-- The passes over the columns that settle their widths.
use m_awsexp.Table.Section.Covers.{
  Covers, Covers-refl, Covers-trans, Covers-reverse, sum-reverse, length-reverse,
}
use m_awsexp.Common.{ℕ, zero, suc, ◌+◌, ◌-◌, ◌≤◌, List, [], ◌∷◌, ◌≡◌, length, arith, refl}
use m_awsexp.Common.{min, All}
use m_awsexp.Common.Int.{pos}
use m_awsexp.Table.Section.{sum, shrink_pass, grow_pass, settle, deficit}
use mathlib.Core.List.{reverse, reverse-reverse}
use mathlib.Core.Path.{subst}

sum-grow_pass : (off : ℕ) (ws : List ℕ) → sum (grow_pass off ws) ≡ sum ws + min off (length ws)
unfolding sum grow_pass
sum-grow_pass zero ws = omega arith
sum-grow_pass (suc off) [] = omega arith
sum-grow_pass (suc off) (w ∷ ws) = omega (arith, sum-grow_pass off ws)

length-grow_pass : (off : ℕ) (ws : List ℕ) → length (grow_pass off ws) ≡ length ws
unfolding grow_pass
length-grow_pass zero ws = omega arith
length-grow_pass (suc off) [] = omega arith
length-grow_pass (suc off) (w ∷ ws) = omega (arith, length-grow_pass off ws)

grow_pass-Covers : (off : ℕ) (ws : List ℕ) → Covers 0 ws (grow_pass off ws)
unfolding grow_pass
grow_pass-Covers zero ws = Covers-refl 0 ws
grow_pass-Covers (suc off) [] = tt
grow_pass-Covers (suc off) (w ∷ ws) = (omega arith, grow_pass-Covers off ws)

pub sum-shrink_pass :
    (off : ℕ) (ws : List ℕ)
    → off ≤ length ws
    → All (λ w. 1 ≤ w) ws
    → sum (shrink_pass off ws) + off ≡ sum ws
unfolding sum shrink_pass
sum-shrink_pass zero ws h p = omega arith
sum-shrink_pass (suc off) [] h p = absurd (omega arith)
sum-shrink_pass (suc off) (w ∷ ws) h (p, ps) =
    omega (arith, sum-shrink_pass off ws (omega arith) ps)

pub shrink_pass-Covers : (off : ℕ) (ws : List ℕ) → Covers 1 ws (shrink_pass off ws)
unfolding shrink_pass
shrink_pass-Covers zero ws = Covers-refl 1 ws
shrink_pass-Covers (suc off) [] = tt
shrink_pass-Covers (suc off) (w ∷ ws) = (omega arith, shrink_pass-Covers off ws)

settle-zero : (fuel : ℕ) (ws : List ℕ) → settle fuel (pos 0) ws ≡ ws
unfolding settle
settle-zero zero ws = refl
settle-zero (suc fuel) ws = refl

-- What is too much is taken away in one pass.
pub settle-pos :
    (fuel k : ℕ) (ws : List ℕ)
    → k ≤ fuel
    → k ≤ length ws
    → settle fuel (pos k) ws ≡ shrink_pass k ws
unfolding settle shrink_pass
settle-pos zero zero ws f h = refl
settle-pos zero (suc k) ws f h = absurd (omega arith)
settle-pos (suc fuel) zero ws f h = refl
settle-pos (suc fuel) (suc k) ws f h =
    let e : suc k - length ws ≡ 0 = omega arith in rw e (settle-zero fuel (shrink_pass (suc k) ws))

-- A pass from the last column to the first.
grown : ℕ → List ℕ → List ℕ
grown off ws = reverse (grow_pass off (reverse ws))

length-grown : (off : ℕ) (ws : List ℕ) → length (grown off ws) ≡ length ws
unfolding grown
length-grown off ws = omega (
  arith,
  length-reverse (grow_pass off (reverse ws)),
  length-grow_pass off (reverse ws),
  length-reverse ws,
)

sum-grown : (off : ℕ) (ws : List ℕ) → sum (grown off ws) ≡ sum ws + min off (length ws)
unfolding grown
sum-grown off ws = omega (
  arith,
  sum-reverse (grow_pass off (reverse ws)),
  sum-grow_pass off (reverse ws),
  length-reverse ws,
  sum-reverse ws,
)

grown-Covers : (off : ℕ) (ws : List ℕ) → Covers 0 ws (grown off ws)
unfolding grown
grown-Covers off ws =
    subst (λ (l : List ℕ). Covers 0 l (grown off ws)) (reverse-reverse ws)
      (Covers-reverse 0 (reverse ws) (grow_pass off (reverse ws))
        (grow_pass-Covers off (reverse ws)))

-- What is missing is given out, in as many passes as it takes.
abbrev GivesOut : ℕ → List ℕ → List ℕ → Type 0
GivesOut k ws ws' = (sum ws' ≡ sum ws + k) × Covers 0 ws ws'

GivesOut-grown :
    (k : ℕ) (ws ws' : List ℕ) → GivesOut (k - length ws) (grown k ws) ws' → GivesOut k ws ws'
GivesOut-grown k ws ws' (e, c) =
    (omega (arith, sum-grown k ws), Covers-trans 0 0 ws (grown k ws) ws' (grown-Covers k ws) c)

pub settle-deficit :
    (fuel k : ℕ) (ws : List ℕ)
    → k ≤ fuel
    → 1 ≤ length ws
    → GivesOut k ws (settle fuel (deficit k) ws)
unfolding settle grown
settle-deficit zero zero ws f h = (omega arith, Covers-refl 0 ws)
settle-deficit zero (suc k) ws f h = absurd (omega arith)
settle-deficit (suc fuel) zero ws f h = (omega arith, Covers-refl 0 ws)
settle-deficit (suc fuel) (suc k) ws f h = GivesOut-grown (suc k) ws _ (
    settle-deficit fuel (suc k - length ws) (grown (suc k) ws) (omega arith)
      (omega (arith, length-grown (suc k) ws)))

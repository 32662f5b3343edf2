-- ===== src/Table/Section/Widths.antt =====
-- The widths of columns that are scaled to the width of a table.
use m_awsexp.Table.Section.Covers.{Covers, Covers-mono, Covers-trans, length-Covers, All-Covers}
use m_awsexp.Table.Section.Passes.{sum-shrink_pass, shrink_pass-Covers, settle-pos, settle-deficit}
use m_awsexp.Common.{
  ℕ, suc, ◌+◌, ◌-◌, ◌*◌, ◌≤◌, ◌<◌, List, [], ◌∷◌, ◌≡◌, length, arith, leb, Bool-cases, false, inl,
  leb→le, inr,
}
use m_awsexp.Common.{All}
use m_awsexp.Common.Int.{negsuc}
use m_awsexp.Table.Section.{sum, settle, scaled_widths}
use mathlib.Core.List.{map}
use native.Mathlib.Nat.{
  mul-add, mul_left_comm, le_refl, le_of_mul-le-mul_left, mul-le-mul_right, mul_comm,
}

-- The columns are together below the width.
missing :
    (max_width : ℕ) (us ws : List ℕ)
    → 0 < sum us
    → Covers 0 us ws
    → leb max_width (sum ws) ≡ false
    → (sum (settle (suc (max_width - sum ws - 1)) (negsuc (max_width - sum ws - 1)) ws) ≡ max_width)
      × Covers 1 us (settle (suc (max_width - sum ws - 1)) (negsuc (max_width - sum ws - 1)) ws)
unfolding sum
missing max_width [] ws t c under = absurd (omega arith)
missing max_width (u ∷ us) ws t c under =
    let k = max_width - sum ws - 1 in
    let short : sum ws < max_width = ground arith in
    let given =
      settle-deficit (suc k) (suc k) ws (le_refl (suc k))
        (omega (arith, length-Covers 0 (u ∷ us) ws c)) in
    (
      omega (arith, given.0),
      Covers-trans 0 1 (u ∷ us) ws _ c (Covers-mono 0 1 ws _ (omega arith) given.1),
    )

-- The rounding to the nearest whole number of what is max_width / total * w, either of two that are
-- as near. Doubles give this for every width of a text: the quotients are less than one part in
-- 2^52 off, and nothing but a tie is as close to the middle.
abbrev pub IsNearest : (ℕ → ℕ → ℕ → ℕ) → Type 0
IsNearest round_scaled =
    (max_width total w : ℕ)
    → 0 < total
    → (2 * (total * round_scaled max_width total w) ≤ 2 * (max_width * w) + total)
      × (2 * (max_width * w) ≤ 2 * (total * round_scaled max_width total w) + total)

module _ (round_scaled : ℕ → ℕ → ℕ → ℕ) (nearest : IsNearest round_scaled) where
  -- At a width of the table that is at least that of its columns, no column gets smaller.
  round_scaled-le :
      (max_width total w : ℕ) → 0 < total → total ≤ max_width → w ≤ round_scaled max_width total w
  round_scaled-le max_width total w t h =
      let p = (nearest max_width total w t).1 in
      let q = mul-le-mul_right w h in
      let r = round_scaled max_width total w in
      let b : total * (2 * w) ≤ total * (2 * r + 1) =
        omega (
          arith,
          p,
          q,
          mul_left_comm total 2 w,
          mul-add total (2 * r) 1,
          mul_left_comm total 2 r,
        ) in
      let c = le_of_mul-le-mul_left b t in omega arith

  scaled-Covers :
      (max_width total : ℕ) (us : List ℕ)
      → 0 < total
      → total ≤ max_width
      → Covers 0 us (map (round_scaled max_width total) us)
  scaled-Covers max_width total [] t h = tt
  scaled-Covers max_width total (u ∷ us) t h =
      (omega (arith, round_scaled-le max_width total u t h), scaled-Covers max_width total us t h)

  sum-scaled :
      (max_width total : ℕ) (us : List ℕ)
      → 0 < total
      → total * (2 * sum (map (round_scaled max_width total) us))
        ≤ max_width * (2 * sum us) + total * length us
  unfolding sum
  sum-scaled max_width total [] t = omega arith
  sum-scaled max_width total (u ∷ us) t =
      let r = round_scaled max_width total u in
      let s = sum (map (round_scaled max_width total) us) in
      omega (
        arith,
        (nearest max_width total u t).0,
        sum-scaled max_width total us t,
        mul-add total (2 * r) (2 * s),
        mul_left_comm total 2 r,
        mul-add max_width (2 * u) (2 * sum us),
        mul_left_comm max_width 2 u,
        mul-add total 1 (length us),
        mul-add 2 r s,
        mul-add 2 u (sum us),
      )

  excess-le :
      (max_width : ℕ) (us : List ℕ)
      → 0 < sum us
      → sum (map (round_scaled max_width (sum us)) us) ≤ max_width + length us
  excess-le max_width us t =
      let s = sum (map (round_scaled max_width (sum us)) us) in
      let b : sum us * (2 * s) ≤ sum us * (2 * max_width + length us) = omega (
        arith,
        sum-scaled max_width (sum us) us t,
        mul-add (sum us) (2 * max_width) (length us),
        mul_left_comm max_width 2 (sum us),
        mul_left_comm (sum us) 2 max_width,
        mul_comm max_width (sum us),
      ) in
      let c = le_of_mul-le-mul_left b t in omega arith

  -- The columns fill the width, and none is more than one below what its texts need.
  pub scaled_widths_lem :
      (max_width : ℕ) (us : List ℕ)
      → 0 < sum us
      → All (λ u. 1 ≤ u) us
      → sum us ≤ max_width
      → (sum (scaled_widths round_scaled max_width us) ≡ max_width)
        × Covers 1 us (scaled_widths round_scaled max_width us)
  unfolding scaled_widths
  scaled_widths_lem max_width us t p h =
      let ws = map (round_scaled max_width (sum us)) us in
      let covered = scaled-Covers max_width (sum us) us t h in
      elim (Bool-cases (leb max_width (sum ws))) [
        | inl over ↦
            let off = sum ws - max_width in
            let fits : off ≤ length ws =
              omega (arith, excess-le max_width us t, length-Covers 0 us ws covered) in
            rw over (
              rw (settle-pos off off ws (le_refl off) fits) (
                omega (
                  arith,
                  sum-shrink_pass off ws fits (All-Covers us ws covered p),
                  leb→le max_width (sum ws) over,
                ),
                Covers-trans 0 1 us ws _ covered (shrink_pass-Covers off ws),
              ))
        | inr under ↦ rw under (missing max_width us ws t covered under)
      ]

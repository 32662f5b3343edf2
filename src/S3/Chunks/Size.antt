-- ===== src/S3/Chunks/Size.antt =====
-- `find_chunksize` ends, and gives the smallest doubling with which the parts are few enough.
use native.Mathlib.Decide.{dec_le}
use native.Mathlib.Nat.{le_refl}
use m_awsexp.Common.{
  ℕ, zero, suc, ◌≡◌, ◌<◌, some, ltb, ◌⊎◌, ◌≤◌, ◌-◌, true, ◌+◌, false, ◌*◌, arith, Bool-cases, inr,
  inl, ◌↔◌, refl,
}
use m_awsexp.S3.Chunks.{find_chunksize, double_until, ceil_div, max_parts, max_single_upload_size}

-- `c` is the first size, or half of it left too many parts.
abbrev pub Needed : ℕ → ℕ → ℕ → Type 0
Needed size first c = (c ≡ first) ⊎ (max_parts * c < 2 * size)

times_mono : (c : ℕ) {a b : ℕ} → a ≤ b → c * a ≤ c * b
times_mono c h = grind arith

-- `n` chunks hold the file exactly if it does not need more than `n` of them.
pub ceil_div-le_iff : (size c n : ℕ) → 0 < c → (ceil_div size c ≤ n) ↔ (size ≤ c * n)
ceil_div-le_iff size c n h = (
  λ few. omega (arith, times_mono c few),
  λ fits. elim (dec_le (ceil_div size c) n) [
    | yes few ↦ few
    | no many ↦
        let more : suc n ≤ ceil_div size c = omega arith in
        absurd (omega (arith, times_mono c more))
  ],
)

parts_few : (size c : ℕ) → 0 < c → ltb max_parts (ceil_div size c) ≡ false → size ≤ max_parts * c
parts_few size c h e =
    let few : ceil_div size c ≤ max_parts = ground arith in
    omega (arith, (ceil_div-le_iff size c max_parts h).0 few)

parts_many : (size c : ℕ) → 0 < c → ltb max_parts (ceil_div size c) ≡ true → max_parts * c < size
parts_many size c h e = elim (dec_le size (c * max_parts)) [
  | yes fits ↦ absurd (ground (arith, (ceil_div-le_iff size c max_parts h).1 fits))
  | no over ↦ omega arith
]

ceil_div-le : (size c : ℕ) → 0 < c → size ≤ max_parts * c → ceil_div size c ≤ max_parts
ceil_div-le size c h e = (ceil_div-le_iff size c max_parts h).1 (omega arith)

double_until_lem :
    (fuel size c : ℕ)
    → 0 < c
    → size - c < fuel
    → (r : ℕ) × (double_until fuel size c ≡ some r)
      × (c ≤ r)
      × (size ≤ max_parts * r)
      × Needed size c r
unfolding double_until
double_until_lem zero size c h lt = absurd (omega arith)
double_until_lem (suc fuel) size c h lt = elim (Bool-cases (ltb max_parts (ceil_div size c))) [
  | inr few ↦ (c, rw few, le_refl c, parts_few size c h few, inl refl)
  | inl many ↦
      let more = parts_many size c h many in
      let (r, e, grown, few, needed) =
        double_until_lem fuel size (c * 2) (omega arith) (omega (arith, more)) in
      (
        r,
        rw many e,
        omega (arith, grown),
        few,
        elim needed [ inl first ↦ inr (omega (arith, first, more)) | inr half ↦ inr half ],
      )
]

-- For every size that 10000 parts of 5 GB can hold, `find_chunksize` returns a size of at most 5 GB
-- with which 10000 parts suffice.
pub find_chunksize_fits :
    (size current : ℕ)
    → 0 < current
    → size ≤ max_parts * max_single_upload_size
    → (r : ℕ) × (find_chunksize size current ≡ some r)
      × (0 < r)
      × (r ≤ max_single_upload_size)
      × (ceil_div size r ≤ max_parts)
unfolding find_chunksize
find_chunksize_fits size c h fits =
    let (r, e, grown, few, needed) = double_until_lem (size + 1) size c h (omega arith) in
    elim (Bool-cases (ltb max_single_upload_size r)) [
      | inl big ↦ (
        max_single_upload_size,
        rw e (rw big),
        omega arith,
        omega arith,
        ceil_div-le size _ (omega arith) fits,
      )
      | inr small ↦ (
        r,
        rw e (rw small),
        omega (arith, grown),
        ground arith,
        ceil_div-le size r (omega (arith, grown)) few,
      )
    ]

-- A size below the cap is the given one, or half of it would have left more than 10000 parts; and
-- it is never smaller than the given one.
pub find_chunksize_least :
    (size current r : ℕ)
    → 0 < current
    → find_chunksize size current ≡ some r
    → r < max_single_upload_size
    → (current ≤ r) × Needed size current r
unfolding find_chunksize
find_chunksize_least size c r h e small =
    let (q, d, grown, few, needed) = double_until_lem (size + 1) size c h (omega arith) in
    elim (Bool-cases (ltb max_single_upload_size q)) [
      | inl big ↦ absurd (ground (arith, rw d at e))
      | inr fits ↦
          let same : q ≡ r = ground (arith, rw d at e) in (rw (← same) grown, rw (← same) needed)
    ]

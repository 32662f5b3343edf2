-- ===== src/S3/Chunks/Ranges.antt =====
-- The ranges of the parts take in every byte of an object exactly once.
use native.Mathlib.Decide.{dec_le}
use native.Mathlib.Nat.{le_refl}
use m_awsexp.Common.{
  ℕ, ◌<◌, ◌*◌, ◌≤◌, ◌+◌, ◌↔◌, ◌/◌, ◌≡◌, arith, true, suc, zero, refl, min, ◌⊎◌, ◌-◌, inl, inr,
}
use m_awsexp.S3.Chunks.{num_uploads, copy_range, covers, ceil_div, download_range, num_downloads}
use m_awsexp.S3.Chunks.Size.{ceil_div-le_iff}

-- `b / c` is the only number of chunks of `c` bytes between which and the next `b` lies.
quotient_iff : (b c k : ℕ) → 0 < c → ((c * k ≤ b) × (b < c * (k + 1))) ↔ (b / c ≡ k)
quotient_iff b c k h = (λ between. grind arith, λ e. grind arith)

-- A part that is not the last one ends within the object, and the last one begins there.
part_inside :
    (size c k : ℕ)
    → 0 < c
    → k < num_uploads size c
    → (c * k < size) × ((suc k ≡ num_uploads size c) ⊎ (c * (k + 1) < size))
part_inside size c k h inside = (
  elim (dec_le size (c * k)) [
    | yes past ↦ absurd (omega (arith, inside, (ceil_div-le_iff size c k h).1 past))
    | no begins ↦ omega (arith, begins)
  ],
  elim (dec_le size (c * (k + 1))) [
    | yes past ↦ inl (omega (arith, inside, (ceil_div-le_iff size c (k + 1) h).1 past))
    | no ends ↦ inr (omega (arith, ends))
  ],
)

-- Where a part ends, as a bound on its bytes.
copy_range-covers_iff :
    (size c k b : ℕ)
    → 0 < c
    → k < num_uploads size c
    → (covers size (copy_range size c (suc k)) b ≡ true)
      ↔ ((b < size) × (c * k ≤ b) × (b < c * (k + 1)))
unfolding copy_range
copy_range-covers_iff size c k b h inside =
    let last : size ≤ c * ceil_div size c = (ceil_div-le_iff size c _ h).0 (le_refl _) in
    let (begins, ends) = part_inside size c k h inside in
    (λ e. ground (arith, last, begins, ends), λ e. ground (arith, last, begins, ends))

enough : (size c b : ℕ) → 0 < c → b < size → b / c + 1 ≤ num_uploads size c
enough size c b h e = elim (dec_le (num_uploads size c) (b / c)) [
  | yes few ↦ absurd (
      omega
        (arith, (ceil_div-le_iff size c (b / c) h).0 few, ((quotient_iff b c (b / c) h).1 refl).0))
  | no many ↦ omega arith
]

-- Of the parts of a multipart copy, numbered from 1, exactly part `b / c + 1` has the byte `b` in
-- its range, if `b` is a byte of the object, and none of the ranges has a byte past its end; and that
-- part is one of the upload's, for every byte of the object.
pub copy_range_lem :
    (size c part_number b : ℕ)
    → 0 < c
    → 1 ≤ part_number
    → part_number ≤ num_uploads size c
    → ((covers size (copy_range size c part_number) b ≡ true)
        ↔ ((b < size) × (part_number ≡ b / c + 1)))
      × ((size ≤ b) ⊎ (b / c + 1 ≤ num_uploads size c))
copy_range_lem size c zero b h low high = absurd (omega arith)
copy_range_lem size c (suc k) b h low high =
    let here = copy_range-covers_iff size c k b h high in
    let where_ = quotient_iff b c k h in
    (
      (λ e. ground (arith, here.0 e, where_), λ e. ground (arith, here.1, where_)),
      elim (dec_le size b) [
        | yes past ↦ inl past
        | no inside ↦ inr (enough size c b h (omega (arith, inside)))
      ],
    )

le_div_iff : (b c k : ℕ) → 0 < c → (k ≤ b / c) ↔ (c * k ≤ b)
le_div_iff b c k h = (λ e. grind arith, λ e. grind arith)

-- The downloads: the last of the parts takes the rest of the object.
download_range-covers_iff :
    (size c p b : ℕ)
    → 0 < c
    → p < num_downloads size c
    → (covers size (download_range size c p) b ≡ true)
      ↔ ((b < size) × (c * p ≤ b) × ((p + 1 ≡ num_downloads size c) ⊎ (b < c * (p + 1))))
unfolding download_range
download_range-covers_iff size c p b h inside =
    let fits = (le_div_iff size c (p + 1) h).0 (omega (arith, inside)) in
    (λ e. ground (arith, fits), λ e. ground (arith, fits))

module _ (size c p b : ℕ) where
  part_of_bounds :
      p ≤ b / c
      → (p + 1 ≡ num_downloads size c) ⊎ (b < c * (p + 1))
      → (p + 1 ≤ b / c) ↔ (c * (p + 1) ≤ b)
      → p < num_downloads size c
      → p ≡ min (b / c) (num_downloads size c - 1)
  part_of_bounds low (inl last) next inside = omega arith
  part_of_bounds low (inr high) next inside = elim (dec_le (p + 1) (b / c)) [
    | yes over ↦ absurd (omega (arith, next.0 over))
    | no under ↦ omega arith
  ]

  bounds_of_part :
      p ≡ min (b / c) (num_downloads size c - 1)
      → (p + 1 ≤ b / c) ↔ (c * (p + 1) ≤ b)
      → p < num_downloads size c
      → (p + 1 ≡ num_downloads size c) ⊎ (b < c * (p + 1))
  bounds_of_part e next inside = elim (dec_le (c * (p + 1)) b) [
    | yes over ↦ inl (omega (arith, next.1 over))
    | no under ↦ inr (omega arith)
  ]

-- A download has no part at all exactly if the chunks are larger than the object.
pub num_downloads-eq-zero_iff : (size c : ℕ) → 0 < c → (num_downloads size c ≡ 0) ↔ (size < c)
num_downloads-eq-zero_iff size c h = (λ e. grind arith, λ e. grind arith)

-- Of the parts of a download, numbered from 0, exactly one has the byte `b` in its range, if `b` is
-- a byte of the object, and none of the ranges has a byte past its end: part `b / c`, or the last one
-- where that is past it. There is such a part unless the chunks are larger than the object.
pub download_range_lem :
    (size c b : ℕ)
    → 0 < c
    → ((part_number : ℕ)
        → part_number < num_downloads size c
        → (covers size (download_range size c part_number) b ≡ true)
          ↔ ((b < size) × (part_number ≡ min (b / c) (num_downloads size c - 1))))
      × ((size < c) ⊎ (min (b / c) (num_downloads size c - 1) < num_downloads size c))
download_range_lem size c b h = (
  λ p inside.
      let here = download_range-covers_iff size c p b h inside in
      let below = le_div_iff b c p h in
      let next = le_div_iff b c (p + 1) h in
      (
        λ e.
            let (small, from, upto) = here.0 e in
            (small, part_of_bounds size c p b (below.1 from) upto next inside),
        λ (small, e).
            here.1 (small, below.0 (omega arith), bounds_of_part size c p b e next inside),
      ),
  elim (dec_le c size) [
    | yes fits ↦ inr (omega (arith, (le_div_iff size c 1 h).1 (omega (arith, fits))))
    | no above ↦ inl (omega (arith, above))
  ],
)

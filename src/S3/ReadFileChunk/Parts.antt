-- ===== src/S3/ReadFileChunk/Parts.antt =====
-- The parts of a multipart upload carry the file, whole and in order.
use native.Mathlib.Nat.{le_refl}
use m_awsexp.S3.ReadFileChunk.{Bytes, read, read_part}
use m_awsexp.S3.ReadFileChunk.Window.{read_all_lem, read_all}
use m_awsexp.Common.{
  ℕ, ◌*◌, [], ◌<◌, suc, ◌≤◌, length, ◌≡◌, ◌+◌, none, drop, ◌++◌, take, zero, ◌-◌, drop_of_length-le,
  arith, drop-drop, take-append-drop,
}
use m_awsexp.S3.Chunks.{num_uploads}
use m_awsexp.S3.Chunks.Size.{ceil_div-le_iff}

-- The bodies of `n` parts from the one after part `k`.
pub bodies : Bytes → ℕ → ℕ → ℕ → Bytes
bodies contents chunk_size k zero = []
bodies contents chunk_size k (suc n) =
    (read none (read_part contents chunk_size (suc k))).0 ++ bodies contents chunk_size (suc k) n

body_lem :
    (contents : Bytes) (c k : ℕ)
    → k * c ≤ length contents
    → (read none (read_part contents c (suc k))).0 ≡ take c (drop (k * c) contents)
unfolding read_part
body_lem contents c k h =
    let e : suc k - 1 ≡ k = omega arith in
    rw e (unfold read_all in (read_all_lem contents (k * c) c [] [] h).0)

bodies_lem :
    (contents : Bytes) (c k n : ℕ)
    → 0 < c
    → length contents ≤ (k + n) * c
    → (k + n) * c < length contents + c
    → bodies contents c k n ≡ drop (k * c) contents
unfolding bodies
bodies_lem contents c k zero h enough tight = rw (drop_of_length-le (k * c) contents (grind arith))
bodies_lem contents c k (suc n) h enough tight =
    let low : k * c ≤ length contents = grind arith in
    let more : suc k + n ≡ k + suc n = omega arith in
    let e : suc k * c ≡ k * c + c = omega arith in
    rw
      (
        body_lem contents c k low,
        bodies_lem contents c (suc k) n h (rw more enough) (rw more tight),
        e,
        ← drop-drop c (k * c) contents,
      )
      (take-append-drop c (drop (k * c) contents))

times_ceil_div : (size c : ℕ) → 0 < c → num_uploads size c * c < size + c
times_ceil_div size c h = omega arith

-- The bodies of the parts of a multipart upload, from the first to the last and each read to its
-- end, are together the file.
pub bodies-eq-contents :
    (contents : Bytes) (chunk_size : ℕ)
    → 0 < chunk_size
    → bodies contents chunk_size 0 (num_uploads (length contents) chunk_size) ≡ contents
bodies-eq-contents contents c h =
    let n = num_uploads (length contents) c in
    let none_before : 0 * c ≡ 0 = omega arith in
    rw none_before at (
      bodies_lem contents c 0 n h
        (omega (arith, (ceil_div-le_iff (length contents) c n h).0 (le_refl n)))
        (omega (arith, times_ceil_div (length contents) c h)))

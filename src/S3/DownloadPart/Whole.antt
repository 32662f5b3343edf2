-- ===== src/S3/DownloadPart/Whole.antt =====
-- The file after all parts of a range download.
use native.Mathlib.Decide.{dec_le}
use m_awsexp.Common.{
  ℕ, ◌≡◌, List, Str, length, ◌||◌, true, ◌<◌, All, leb, Option, ◌&&◌, some, arith, [], ltb, suc,
  refl, ◌*◌, ◌≤◌, ◌+◌, ◌∷◌, zero, length-drop, ◌∙◌, length-take, ◌-◌, ap, drop, get_elem?, none,
  min, ◌/◌, ◌⊎◌, inl, inr, sym,
}
use m_awsexp.S3.DownloadPart.Writes.{
  written, IsCopy, Queued, queue_rest_lem, write_all-kept, get_elem?-past, get_elem?-drop,
  get_elem?-take, write_all_lem,
}
use m_awsexp.S3.ReadFileChunk.{Bytes}
use m_awsexp.S3.Chunks.{ByteRange, covers, download_range, num_downloads}
use m_awsexp.S3.DownloadPart.{
  ranged, IoRequest, Shuffle, from_left, queue_part, queue_parts, from_right,
  queue_writes_in_chunks, empty, Interleaving, one_more, File, write_all, no_parts,
}
use m_awsexp.S3.Chunks.Ranges.{download_range_lem, num_downloads-eq-zero_iff}

range_IsCopy :
    (object : Bytes) (first : ℕ) (last : Option ℕ)
    → IsCopy object first (ranged object (record { first = first; last = last }))
range_IsCopy object first none j h = get_elem?-drop first j object
range_IsCopy object first (some last) j h =
    get_elem?-take (last + 1 - first) j (drop first object) h ∙ get_elem?-drop first j object

ranged-IsCopy : (object : Bytes) (r : ByteRange) → IsCopy object r.first (ranged object r)
ranged-IsCopy object r = range_IsCopy object r.first r.last

covers_range :
    (object : Bytes) (first : ℕ) (last : Option ℕ) (i : ℕ)
    → i < length object
    → covers (length object) (record { first = first; last = last }) i ≡ true
    → (leb first i
        && ltb i (first + length (ranged object (record { first = first; last = last }))))
      ≡ true
covers_range object first none i inside h = ground (arith, length-drop first object)
covers_range object first (some last) i inside h =
    ground (arith, length-take (last + 1 - first) (drop first object), length-drop first object)

-- A position that the range covers is one of the bytes it names.
covers-ranged :
    (object : Bytes) (r : ByteRange) (i : ℕ)
    → i < length object
    → covers (length object) r i ≡ true
    → (leb r.first i && ltb i (r.first + length (ranged object r))) ≡ true
covers-ranged object r i inside h = covers_range object r.first r.last i inside h

Shuffle-copies :
    (object : Bytes) {xs ys zs : List IoRequest}
    → Shuffle xs ys zs
    → All (λ r. IsCopy object r.offset r.bytes) xs
    → All (λ r. IsCopy object r.offset r.bytes) ys
    → All (λ r. IsCopy object r.offset r.bytes) zs
Shuffle-copies object empty p q = tt
Shuffle-copies object (from_left x s) (p, ps) q = (p, Shuffle-copies object s ps q)
Shuffle-copies object (from_right y s) p (q, qs) = (q, Shuffle-copies object s p qs)

Shuffle-written :
    {xs ys zs : List IoRequest} (i : ℕ)
    → Shuffle xs ys zs
    → written zs i ≡ (written xs i || written ys i)
unfolding written
Shuffle-written i empty = refl
Shuffle-written i (from_left x s) = ground (arith, Shuffle-written i s)
Shuffle-written i (from_right y s) = ground (arith, Shuffle-written i s)

module _ (object : Bytes) (get_object : ByteRange → Bytes)
    (answers : (r : ByteRange) → get_object r ≡ ranged object r) (filename : Str)
    (chunk_size iterate_chunk_size : ℕ) (positive : 0 < iterate_chunk_size) where
  abbrev part : ℕ → Option (List IoRequest)
  part = queue_part get_object filename (length object) chunk_size iterate_chunk_size

  abbrev parts : ℕ → ℕ → Option (List (List IoRequest))
  parts = queue_parts get_object filename (length object) chunk_size iterate_chunk_size

  abbrev body : ℕ → Bytes
  body k = ranged object (download_range (length object) chunk_size k)

  queue_part_lem : (k : ℕ) → Queued object (k * chunk_size) (body k) (part k)
  unfolding queue_part queue_writes_in_chunks download_range
  queue_part_lem k =
      rw (queue_part, queue_writes_in_chunks, answers (download_range (length object) chunk_size k))
        (queue_rest_lem object filename iterate_chunk_size (length (body k) + 1) (k * chunk_size)
          (body k) positive (omega arith)
          (ranged-IsCopy object (download_range (length object) chunk_size k)))

  -- When the body is read in pieces of a positive size, and the service answers a range with its
  -- bytes, the loops that queue the requests of the parts end, for any number of parts.
  pub queue_parts-returns : (k n : ℕ) → (xss : List (List IoRequest)) × (parts k n ≡ some xss)
  unfolding queue_parts
  queue_parts-returns k zero = ([], refl)
  queue_parts-returns k (suc n) =
      let (xs, e, ok, all) = queue_part_lem k in
      let (xss, d) = queue_parts-returns (suc k) n in (xs ∷ xss, rw (queue_parts, e, d) refl)

  queue_parts_lem :
      (k n : ℕ) (xss : List (List IoRequest)) (zs : List IoRequest)
      → parts k n ≡ some xss
      → Interleaving xss zs
      → All (λ r. IsCopy object r.offset r.bytes) zs
        × ((i p : ℕ)
            → k ≤ p
            → p < k + n
            → (leb (p * chunk_size) i && ltb i (p * chunk_size + length (body p))) ≡ true
            → written zs i ≡ true)
  unfolding queue_parts
  queue_parts_lem k zero xss zs e no_parts =
      (tt, λ i p low high w. absurd (omega (arith, low, high)))
  queue_parts_lem k zero xss zs e (one_more s sh) = absurd (ground arith)
  queue_parts_lem k (suc n) xss zs e no_parts =
      let (xs', part_k, ok, all) = queue_part_lem k in
      let (xss', later) = queue_parts-returns (suc k) n in
      absurd (ground (arith, rw (queue_parts, part_k, later) at e))
  queue_parts_lem k (suc n) xss zs e (one_more {xss = left} {xs = xs} {ys = ys} s sh) =
      let (xs', part_k, ok, all) = queue_part_lem k in
      let (xss', later) = queue_parts-returns (suc k) n in
      let both : some (xs' ∷ xss') ≡ some (xs ∷ left) = rw (queue_parts, part_k, later) at e in
      let one : xs' ≡ xs = ground (arith, both) in
      let others : xss' ≡ left = ground (arith, both) in
      let (copies, hit) = queue_parts_lem (suc k) n left ys (later ∙ ap some others) s in
      (
        Shuffle-copies object sh (rw one at ok) copies,
        λ i p low high w. rw (Shuffle-written i sh) (elim (dec_le (suc k) p) [
          | yes above ↦ ground (arith, hit i p above (omega (arith, high)) w)
          | no below ↦
              let same : p ≡ k = omega (arith, low, below) in
              ground (arith, rw one at (all i), rw same at w)
        ]),
      )

  writes_inside :
      (xss : List (List IoRequest)) (zs : List IoRequest) (f : File) (i : ℕ)
      → 0 < chunk_size
      → chunk_size ≤ length object
      → parts 0 (num_downloads (length object) chunk_size) ≡ some xss
      → Interleaving xss zs
      → i < length object
      → write_all zs f i ≡ get_elem? object i
  unfolding download_range
  writes_inside xss zs f i h big e s inside =
      let n = num_downloads (length object) chunk_size in
      let k = min (i / chunk_size) (n - 1) in
      let some_part : 0 < n = elim (dec_le 1 n) [
        | yes some_parts ↦ some_parts
        | no none_left ↦ absurd (
            omega (
              arith,
              big,
              (num_downloads-eq-zero_iff (length object) chunk_size h).0 (omega (arith, none_left)),
            ))
      ] in
      let (copies, hit) = queue_parts_lem 0 n xss zs e s in
      let covered =
        ((download_range_lem (length object) chunk_size i h).0 k (omega (arith, some_part))).1
          (inside, refl) in
      write_all_lem object zs f i copies (
        hit i k (omega arith) (omega (arith, some_part))
          (covers-ranged object (download_range (length object) chunk_size k) i inside covered))

  -- Once the requests of all parts of a download are in the write queue, however the threads put
  -- them there, and the writer has served them, the file has the bytes of the object, and nothing
  -- past their end unless it held something there before. The service answers a range with its
  -- bytes, read in pieces of a positive size; the chunks are not larger than the object.
  pub download_writes_object :
      (xss : List (List IoRequest)) (zs : List IoRequest) (f : File) (i : ℕ)
      → 0 < chunk_size
      → chunk_size ≤ length object
      → parts 0 (num_downloads (length object) chunk_size) ≡ some xss
      → Interleaving xss zs
      → (i < length object) ⊎ (f i ≡ none)
      → write_all zs f i ≡ get_elem? object i
  download_writes_object xss zs f i h big e s (inl inside) =
      writes_inside xss zs f i h big e s inside
  download_writes_object xss zs f i h big e s (inr unset) = elim (dec_le (length object) i) [
    | yes past ↦
        let n = num_downloads (length object) chunk_size in
        let (copies, hit) = queue_parts_lem 0 n xss zs e s in
        write_all-kept object zs f i copies (unset ∙ sym (get_elem?-past object i past))
    | no inside ↦ writes_inside xss zs f i h big e s (omega (arith, inside))
  ]

-- ===== src/S3/DownloadPart/Writes.antt =====
-- The requests of one part, and the file after requests in any order.
use m_awsexp.Common.{
  ℕ, ◌≡◌, List, ◌<◌, Option, get_elem?, Bool, drop, length, some, Str, All, ◌+◌, false, arith, take,
  ◌∷◌, suc, ap, leb, true, [], zero, Bool-cases, ◌&&◌, ◌||◌, ◌-◌, ◌∙◌, inl, refl, length-drop, ltb,
  inr, length-take, ◌≤◌, none,
}
use m_awsexp.S3.ReadFileChunk.{Bytes}
use m_awsexp.S3.DownloadPart.{write_all, write, queue_rest, IoRequest, File, writes}

-- The bytes of the request are those of the object at its offset.
abbrev pub IsCopy : Bytes → ℕ → Bytes → Type 0
IsCopy object offset bytes =
    (j : ℕ) → j < length bytes → get_elem? bytes j ≡ get_elem? object (offset + j)

-- Some request writes the position.
unfoldable pub written : List IoRequest → ℕ → Bool
written [] i = false
written (r ∷ rs) i = writes r i || written rs i

unwritten : (rs : List IoRequest) (f : File) (i : ℕ) → written rs i ≡ false → write_all rs f i ≡ f i
unfolding write_all written write
unwritten [] f i h = refl
unwritten (r ∷ rs) f i h = ground (arith, unwritten rs (write r f) i)

write-copy :
    (object : Bytes) (r : IoRequest) (f : File) (i : ℕ)
    → IsCopy object r.offset r.bytes
    → writes r i ≡ true
    → write r f i ≡ get_elem? object i
unfolding write
write-copy object r f i copy h =
    let e : r.offset + (i - r.offset) ≡ i = ground arith in
    rw (write, h) (copy (i - r.offset) (ground arith) ∙ ap (get_elem? object) e)

-- Whatever the order of the requests, a position that one of them writes has the object's byte.
pub write_all_lem :
    (object : Bytes) (rs : List IoRequest) (f : File) (i : ℕ)
    → All (λ r. IsCopy object r.offset r.bytes) rs
    → written rs i ≡ true
    → write_all rs f i ≡ get_elem? object i
unfolding write_all written
write_all_lem object [] f i ok h = absurd (ground arith)
write_all_lem object (r ∷ rs) f i (copy, ok) h = elim (Bool-cases (written rs i)) [
  | inl later ↦ write_all_lem object rs (write r f) i ok later
  | inr never ↦
      unwritten rs (write r f) i never ∙ write-copy object r f i copy (ground (arith, never))
]

-- A position that has what the object has there keeps it.
pub write_all-kept :
    (object : Bytes) (rs : List IoRequest) (f : File) (i : ℕ)
    → All (λ r. IsCopy object r.offset r.bytes) rs
    → f i ≡ get_elem? object i
    → write_all rs f i ≡ get_elem? object i
unfolding write_all written
write_all-kept object rs f i ok e = elim (Bool-cases (written rs i)) [
  | inl some_ ↦ write_all_lem object rs f i ok some_
  | inr none_ ↦ unwritten rs f i none_ ∙ e
]

pub get_elem?-past : (s : Bytes) (i : ℕ) → length s ≤ i → get_elem? s i ≡ none
get_elem?-past [] i h = refl
get_elem?-past (c ∷ s) zero h = absurd (omega (arith, h))
get_elem?-past (c ∷ s) (suc i) h = get_elem?-past s i (omega (arith, h))

pub get_elem?-take :
    (n j : ℕ) (s : Bytes) → j < length (take n s) → get_elem? (take n s) j ≡ get_elem? s j
get_elem?-take zero j s h = absurd (omega (arith, h))
get_elem?-take (suc n) j [] h = absurd (omega (arith, h))
get_elem?-take (suc n) zero (c ∷ s) h = refl
get_elem?-take (suc n) (suc j) (c ∷ s) h = get_elem?-take n j s (omega (arith, h))

pub get_elem?-drop : (n j : ℕ) (s : Bytes) → get_elem? (drop n s) j ≡ get_elem? s (n + j)
get_elem?-drop zero j s = ap (get_elem? s) (omega arith)
get_elem?-drop (suc n) j [] = refl
get_elem?-drop (suc n) j (c ∷ s) =
    let e : suc n + j ≡ suc (n + j) = omega arith in rw e (get_elem?-drop n j s)

-- The requests of a body copy it, and write exactly its positions.
abbrev pub Queued : Bytes → ℕ → Bytes → Option (List IoRequest) → Type 0
Queued object offset body o =
    (rs : List IoRequest) × (o ≡ some rs)
    × All (λ r. IsCopy object r.offset r.bytes) rs
    × ((i : ℕ) → written rs i ≡ (leb offset i && ltb i (offset + length body)))

pub queue_rest_lem :
    (object : Bytes) (filename : Str) (n fuel offset : ℕ) (body : Bytes)
    → 0 < n
    → length body < fuel
    → IsCopy object offset body
    → Queued object offset body (queue_rest fuel filename offset n body)
unfolding queue_rest written
queue_rest_lem object filename n zero offset body pos enough copy = absurd (omega (arith, enough))
queue_rest_lem object filename zero (suc fuel) offset body pos enough copy =
    absurd (omega (arith, pos))
queue_rest_lem object filename (suc n) (suc fuel) offset [] pos enough copy =
    ([], refl, tt, λ i. ground arith)
queue_rest_lem object filename (suc n) (suc fuel) offset (c ∷ body) pos enough copy =
    let size = length (take n body) in
    let rest_copy : IsCopy object (offset + suc size) (drop n body) = λ j h.
      get_elem?-drop (suc n) j (c ∷ body)
      ∙ copy (suc n + j) (omega (arith, h, length-drop n body))
      ∙ ap (get_elem? object) (omega (arith, h, length-take n body, length-drop n body)) in
    let (rs, e, ok, all) =
      queue_rest_lem object filename (suc n) fuel (offset + suc size) (drop n body) pos
        (omega (arith, enough, length-drop n body)) rest_copy in
    (
      record { filename = filename; offset = offset; bytes = c ∷ take n body } ∷ rs,
      rw (queue_rest, e) refl,
      (
        λ j h.
            get_elem?-take (suc n) j (c ∷ body) h ∙ copy j (omega (arith, h, length-take n body)),
        ok,
      ),
      λ i. ground (arith, all i, length-take n body, length-drop n body),
    )

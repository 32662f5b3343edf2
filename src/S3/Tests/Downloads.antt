-- ===== src/S3/Tests/Downloads.antt =====
-- An example for a range download: two parts whose requests are put into the queue by turns.
use m_awsexp.Common.{inr, ℕ, ◌≡◌, List, none, ◌∷◌, codes, some, [], refl, arith}
use m_awsexp.S3.DownloadPart.{
  write_all, Interleaving, queue_parts, IoRequest, ranged, one_more, no_parts, from_left, empty,
  from_right,
}
use m_awsexp.S3.ReadFileChunk.{Bytes}
use m_awsexp.S3.Chunks.{download_range}
use m_awsexp.S3.DownloadPart.Whole.{queue_parts-returns, download_writes_object}

abbrev object : Bytes
object = codes "abcde"

abbrev request : ℕ → Bytes → IoRequest
request offset bytes = record { filename = codes "f"; offset = offset; bytes = bytes }

abbrev first_part : List IoRequest
first_part = request 0 (codes "a") ∷ request 1 (codes "b") ∷ []

abbrev second_part : List IoRequest
second_part = request 2 (codes "c") ∷ request 3 (codes "d") ∷ request 4 (codes "e") ∷ []

abbrev by_turns : List IoRequest
by_turns =
    request 2 (codes "c")
    ∷ request 0 (codes "a")
    ∷ request 3 (codes "d")
    ∷ request 1 (codes "b")
    ∷ request 4 (codes "e")
    ∷ []

by_turns-Interleaving : Interleaving (first_part ∷ second_part ∷ []) by_turns
by_turns-Interleaving =
    one_more (one_more no_parts (from_left _ (from_left _ (from_left _ empty))))
      (from_right _ (from_left _ (from_right _ (from_left _ (from_right _ empty)))))

queue_parts-object :
    queue_parts (ranged object) (codes "f") 5 2 1 0 2 ≡ some (first_part ∷ second_part ∷ [])
unfolding queue_parts download_range
queue_parts-object = refl

download_writes_object_example : write_all by_turns (λ i. none) 5 ≡ none
download_writes_object_example =
    download_writes_object object (ranged object) (λ r. refl) (codes "f") 2 1 (omega arith)
      (first_part ∷ second_part ∷ []) by_turns (λ i. none) 5 (omega arith) (omega arith)
      queue_parts-object by_turns-Interleaving (inr refl)

queue_parts-returns_example :
    (xss : List (List IoRequest)) × (queue_parts (ranged object) (codes "f") 5 2 1 0 2 ≡ some xss)
queue_parts-returns_example =
    queue_parts-returns object (ranged object) (λ r. refl) (codes "f") 2 1 (omega arith) 0 2

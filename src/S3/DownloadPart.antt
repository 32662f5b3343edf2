-- ===== src/S3/DownloadPart.antt =====
-- How a range download writes its file: `DownloadPartTask._queue_writes_in_chunks` of
-- awscli/customizations/s3/tasks.py, and the requests as `IOWriterThread` of executor.py serves
-- them.
pub mod Writes
pub mod Whole
use mathlib.Core.Option
use m_awsexp.Common.{
  ℕ, Str, if◌then◌else◌, Bool, Option, List, ◌∷◌, none, leb, length, get_elem?, [], suc, ◌+◌, ◌&&◌,
  ◌-◌, drop, some, ◌*◌, ltb, take, zero,
}
use m_awsexp.S3.ReadFileChunk.{Bytes}
use m_awsexp.S3.Chunks.{ByteRange, download_range}

-- A request of a file that is no stream.
pub record IoRequest : Type 0 where
  pub filename : Str
  pub offset : ℕ
  pub bytes : Bytes

-- The bytes of a file by their positions.
abbrev pub File : Type 0
File = ℕ → Option ℕ

-- The loop of _queue_writes_in_chunks, with the rest of the body; `none` means that the fuel ran
-- out.
pub queue_rest : ℕ → Str → ℕ → ℕ → Bytes → Option (List IoRequest)
queue_rest zero filename offset iterate_chunk_size body = none
queue_rest (suc fuel) filename offset iterate_chunk_size body =
    let current = take iterate_chunk_size body in
    let rest =
      queue_rest fuel filename (offset + length current) iterate_chunk_size
        (drop iterate_chunk_size body) in
    elim current [
      | [] ↦ some []
      | c ∷ cs ↦
          Option.map (λ rs. record { filename = filename; offset = offset; bytes = c ∷ cs } ∷ rs)
            rest
    ]

-- _queue_writes_in_chunks: every round reads at least one byte of the body
unfoldable pub queue_writes_in_chunks : Str → ℕ → ℕ → ℕ → Bytes → Option (List IoRequest)
unfolding queue_rest
queue_writes_in_chunks filename part_number chunk_size iterate_chunk_size body =
    queue_rest (length body + 1) filename (part_number * chunk_size) iterate_chunk_size body

-- Whether the request writes the position.
abbrev pub writes : IoRequest → ℕ → Bool
writes r i = leb r.offset i && ltb i (r.offset + length r.bytes)

-- fileobj.seek(offset) and fileobj.write
unfoldable pub write : IoRequest → File → File
write r f i = if writes r i then get_elem? r.bytes (i - r.offset) else f i

-- The requests of one file, as the thread takes them from its queue.
unfoldable pub write_all : List IoRequest → File → File
unfolding write
write_all [] f = f
write_all (r ∷ rs) f = write_all rs (write r f)

-- The bytes of an object that a range names.
abbrev pub ranged : Bytes → ByteRange → Bytes
ranged object r = elim (r.last) [
  | none ↦ drop r.first object
  | some last ↦ take (last + 1 - r.first) (drop r.first object)
]

-- _queue_writes of the part task: `get_object` is the body that the service sends for a range
unfoldable pub queue_part : (ByteRange → Bytes) → Str → ℕ → ℕ → ℕ → ℕ → Option (List IoRequest)
unfolding queue_writes_in_chunks
queue_part get_object filename size chunk_size iterate_chunk_size part_number =
    queue_writes_in_chunks filename part_number chunk_size iterate_chunk_size
      (get_object (download_range size chunk_size part_number))

-- The requests of `n` parts from `part_number` on, each part's in its own list.
unfoldable pub queue_parts :
    (ByteRange → Bytes) → Str → ℕ → ℕ → ℕ → ℕ → ℕ → Option (List (List IoRequest))
unfolding queue_part
queue_parts get_object filename size chunk_size iterate_chunk_size part_number zero = some []
queue_parts get_object filename size chunk_size iterate_chunk_size part_number (suc n) =
    let rest =
      queue_parts get_object filename size chunk_size iterate_chunk_size (suc part_number) n in
    elim (queue_part get_object filename size chunk_size iterate_chunk_size part_number) [
      | none ↦ none
      | some rs ↦ Option.map (λ rss. rs ∷ rss) rest
    ]

-- One list of requests put between those of another: each keeps its order.
pub data Shuffle : List IoRequest → List IoRequest → List IoRequest → Type 0 where
  empty : Shuffle [] [] []
  from_left :
      {xs ys zs : List IoRequest} (x : IoRequest) → Shuffle xs ys zs → Shuffle (x ∷ xs) ys (x ∷ zs)
  from_right :
      {xs ys zs : List IoRequest} (y : IoRequest) → Shuffle xs ys zs → Shuffle xs (y ∷ ys) (y ∷ zs)

-- The write queue after the threads of all parts have put their requests into it.
pub data Interleaving : List (List IoRequest) → List IoRequest → Type 0 where
  no_parts : Interleaving [] []
  one_more :
      {xss : List (List IoRequest)} {xs ys zs : List IoRequest}
      → Interleaving xss ys
      → Shuffle xs ys zs
      → Interleaving (xs ∷ xss) zs

-- ===== src/S3/ReadFileChunk.antt =====
-- `ReadFileChunk` of awscli/customizations/s3/utils.py: a window on an open file. The file object is
-- its contents and its position. Chunks that start past the end of the file, which would have a
-- negative size, are outside of the model.
pub mod Window
pub mod Parts
use m_awsexp.Common.{ℕ, ◌+◌, ◌-◌, Option, List, length, take, drop, some, min, ◌*◌, none}

abbrev pub Bytes : Type 0
Bytes = List ℕ

pub record ReadFileChunk : Type 0 where
  pub contents : Bytes
  pub position : ℕ
  pub start_byte : ℕ
  pub size : ℕ
  pub amount_read : ℕ

-- __init__ and _calculate_file_size
unfoldable pub open_chunk : Bytes → ℕ → ℕ → ReadFileChunk
open_chunk contents start_byte requested_size = record {
  contents = contents;
  position = start_byte;
  start_byte = start_byte;
  size = min (length contents - start_byte) requested_size;
  amount_read = 0;
}

-- fileobj.read(n): at most `n` bytes from the position
abbrev pub read_file : ReadFileChunk → ℕ → Bytes
read_file r n = take n (drop r.position r.contents)

abbrev pub moved : ReadFileChunk → ℕ → ReadFileChunk
moved r n = record r {
  position = r.position + length (read_file r n);
  amount_read = r.amount_read + n;
}

-- read
unfoldable pub read : Option ℕ → ReadFileChunk → Bytes × ReadFileChunk
read none r = let remaining = r.size - r.amount_read in (read_file r remaining, moved r remaining)
read (some amount) r =
    let actual_amount = min (r.size - r.amount_read) amount in
    (read_file r actual_amount, moved r actual_amount)

-- seek
unfoldable pub seek : ℕ → ReadFileChunk → ReadFileChunk
seek where_ r = record r { position = r.start_byte + where_; amount_read = where_ }

-- tell and __len__
abbrev pub tell : ReadFileChunk → ℕ
tell r = r.amount_read

abbrev pub len : ReadFileChunk → ℕ
len r = r.size

-- UploadPartTask._read_part, for parts numbered from 1
unfoldable pub read_part : Bytes → ℕ → ℕ → ReadFileChunk
unfolding open_chunk
read_part contents chunk_size part_number =
    open_chunk contents ((part_number - 1) * chunk_size) chunk_size

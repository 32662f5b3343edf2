-- ===== src/S3/Chunks.antt =====
-- The sizes and ranges of the parts of a transfer: `find_chunksize` of
-- awscli/customizations/s3/utils.py, the ranges of the part tasks of tasks.py, and the part counts
-- of s3handler.py. The source computes them with doubles; below 2^52 bytes, far above the 5 TB that
-- S3 allows, these have the integer values that stand here.
pub mod Size
pub mod Ranges
use mathlib.Core.Option
use m_awsexp.Common.{
  ℕ, zero, suc, ◌+◌, ◌-◌, ◌*◌, ◌/◌, ◌^◌, Option, none, some, ltb, if◌then◌else◌, ◌==◌, Bool, ◌&&◌,
  true, leb,
}

abbrev pub max_parts : ℕ
max_parts = 10_000

abbrev pub max_single_upload_size : ℕ
max_single_upload_size = 5 * 1024 ^ 3

-- int(math.ceil(a / float(b)))
abbrev pub ceil_div : ℕ → ℕ → ℕ
ceil_div a b = (a + b - 1) / b

-- The `while` of find_chunksize; `none` means that the fuel ran out.
double_until : ℕ → ℕ → ℕ → Option ℕ
double_until zero size chunksize = none
double_until (suc fuel) size chunksize =
    let rest = double_until fuel size (chunksize * 2) in
    if ltb max_parts (ceil_div size chunksize) then rest else some chunksize

-- While there are too many parts the chunks are smaller than the file, so their size doubles fewer
-- than `size` times.
unfoldable pub find_chunksize : ℕ → ℕ → Option ℕ
unfolding double_until
find_chunksize size current_chunksize =
    Option.map (λ c. if ltb max_single_upload_size c then max_single_upload_size else c)
      (double_until (size + 1) size current_chunksize)

-- The inclusive byte range of a request; an end that is left out means the rest of the object.
pub record ByteRange : Type 0 where
  pub first : ℕ
  pub last : Option ℕ

-- CopyPartTask.__call__ up to its range; part numbers start at 1
unfoldable pub copy_range : ℕ → ℕ → ℕ → ByteRange
copy_range size chunk_size part_number =
    let start_range = (part_number - 1) * chunk_size in
    record {
      first = start_range;
      last =
          if part_number == ceil_div size chunk_size
          then some (size - 1)
          else some (start_range + chunk_size - 1);
    }

-- DownloadPartTask._download_part up to its range; part numbers start at 0
unfoldable pub download_range : ℕ → ℕ → ℕ → ByteRange
download_range size chunk_size part_number =
    let start_range = part_number * chunk_size in
    record {
      first = start_range;
      last =
          if part_number + 1 == size / chunk_size
          then none
          else some (start_range + chunk_size - 1);
    }

-- _enqueue_multipart_upload_tasks and _enqueue_range_download_tasks
abbrev pub num_uploads : ℕ → ℕ → ℕ
num_uploads size chunksize = ceil_div size chunksize

abbrev pub num_downloads : ℕ → ℕ → ℕ
num_downloads size chunksize = size / chunksize

-- An open end is that of the object; any other end is taken as it is written.
abbrev pub up_to : ℕ → Option ℕ → ℕ → Bool
up_to size none byte = ltb byte size
up_to size (some last) byte = leb byte last

-- Whether a range names a byte, of an object of the size or past its end.
abbrev pub covers : ℕ → ByteRange → ℕ → Bool
covers size r byte = leb r.first byte && up_to size r.last byte

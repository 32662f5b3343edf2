-- ===== src/S3/Path.antt =====
-- The path helpers of awscli/customizations/s3/utils.py: `find_bucket_key`, `split_s3_bucket_key`
-- and `find_dest_path_comp_key`.
pub mod Laws
use m_awsexp.Common.{
  ℕ, Bool, Str, codes, if◌then◌else◌, drop, split, List, length, starts_with, replace, ◌∷◌, join,
  last_part, [], ◌++◌,
}
use m_awsexp.S3.FileStat.{Location, s3, local}

-- s3_components[0], and the rest joined again
split_components : List Str → Str × Str
split_components [] = ([], [])
split_components (bucket ∷ rest) = (bucket, join b'/' rest)

-- `(bucket, key)`; a path without a slash has the empty key
unfoldable pub find_bucket_key : Str → Str × Str
unfolding split_components split join
find_bucket_key s3_path = split_components (split b'/' s3_path)

abbrev pub s3_prefix : Str
s3_prefix = codes "s3://"

unfoldable pub split_s3_bucket_key : Str → Str × Str
unfolding find_bucket_key starts_with
split_s3_bucket_key s3_path =
    find_bucket_key (if starts_with s3_path s3_prefix then drop 5 s3_path else s3_path)

-- The dictionary that `FileFormat.format` makes.
pub record Place : Type 0 where
  pub path : Str
  pub location : Location

pub record Files : Type 0 where
  pub src : Place
  pub dest : Place
  pub dir_op : Bool
  pub use_src_name : Bool

module _ (os_sep : ℕ) where
  -- sep_table
  abbrev pub sep : Location → ℕ
  sep s3 = b'/'
  sep local = os_sep

  abbrev pub relative : Files → Str → Str
  relative files src_path =
      if files.dir_op
      then drop (length files.src.path) src_path
      else last_part (split (sep files.src.location) src_path)

  -- `(dest_path, compare_key)`
  unfoldable pub find_dest_path_comp_key : Files → Str → Str × Str
  unfolding replace split last_part
  find_dest_path_comp_key files src_path =
      let rel_path = relative files src_path in
      let src_sep = sep files.src.location in
      let dest_sep = sep files.dest.location in
      (
        if files.use_src_name
            then files.dest.path ++ replace rel_path src_sep dest_sep
            else files.dest.path,
        replace rel_path src_sep b'/',
      )

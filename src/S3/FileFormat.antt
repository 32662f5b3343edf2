-- ===== src/S3/FileFormat.antt =====
-- awscli/customizations/s3/fileformat.py. `os.path.abspath`, `os.path.exists` and `os.path.isdir`
-- are parameters.
pub mod Laws
use m_awsexp.Common.{
  ℕ, Bool, Str, ends_with, starts_with, if◌then◌else◌, not, drop, ◌&&◌, ◌||◌, ◌++◌, ◌∷◌, [], true,
  false,
}
use m_awsexp.S3.FileStat.{Location, s3, local}
use m_awsexp.S3.Path.{Place, Files, s3_prefix}
use m_awsexp.S3.Os.{Os}

-- identify_type
unfoldable pub identify_type : Str → Location × Str
unfolding starts_with
identify_type path = if starts_with path s3_prefix then (s3, drop 5 path) else (local, path)

-- s3_format: the path, and whether the destination takes the name of the source
unfoldable pub s3_format : Str → Bool → Str × Bool
unfolding ends_with
s3_format path dir_op =
    if dir_op
    then (if not (ends_with path b'/') then (path ++ b'/' ∷ [], true) else (path, true))
    else if not (ends_with path b'/')
    then (path, false)
    else (path, true)

module _ (os : Os) where
  -- local_format
  unfoldable pub local_format : Str → Bool → Str × Bool
  unfolding ends_with
  local_format path dir_op =
      let full_path = os.abspath path in
      if os.exists full_path && os.isdir full_path || dir_op
      then (full_path ++ os.sep ∷ [], true)
      else if ends_with path os.sep
      then (full_path ++ os.sep ∷ [], true)
      else (full_path, false)

  -- format_table
  abbrev pub format_path : Location → Str → Bool → Str × Bool
  format_path s3 path dir_op = s3_format path dir_op
  format_path local path dir_op = local_format path dir_op

  -- format
  unfoldable pub format : Str → Str → Bool → Files
  unfolding identify_type s3_format local_format
  format src dest dir_op =
      let (src_type, src_path) = identify_type src in
      let (dest_type, dest_path) = identify_type dest in
      let (dest_path', use_src_name) = format_path dest_type dest_path dir_op in
      record {
        src = record { path = (format_path src_type src_path dir_op).0; location = src_type };
        dest = record { path = dest_path'; location = dest_type };
        dir_op = dir_op;
        use_src_name = use_src_name;
      }

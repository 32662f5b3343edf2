-- ===== src/S3/FileFormat/Laws.antt =====
-- When the source's name is taken over, and that both paths of a directory operation are open ends.
use m_awsexp.Common.{ℕ, Str, ends_with, true, Bool, ◌≡◌, ◌++◌, ◌∷◌, false, ◌||◌, arith, [], ◌&&◌}
use m_awsexp.S3.FileFormat.{format, format_path, s3_format, local_format, identify_type}
use m_awsexp.S3.FileStat.{Location, s3, local}
use m_awsexp.S3.Os.{Os}

pub ends_with-append : (s : Str) (c : ℕ) → ends_with (s ++ c ∷ []) c ≡ true
unfolding ends_with
ends_with-append [] c = ground arith
ends_with-append (d ∷ []) c = ends_with-append [] c
ends_with-append (d ∷ e ∷ s) c = ends_with-append (e ∷ s) c

-- In S3 the name of the source is taken over exactly if the operation is on a directory or the path
-- ends with a slash, and then the formatted path ends with one.
pub s3_format_lem :
    (path : Str) (dir_op : Bool)
    → let (formatted, use_src_name) = s3_format path dir_op in
      (use_src_name ≡ (dir_op || ends_with path b'/')) × (ends_with formatted b'/' ≡ use_src_name)
unfolding s3_format
s3_format_lem path dir_op = ground (arith, ends_with-append path b'/')

module _ (os : Os) where
  -- Of a local path the same holds, but that an existing directory counts too, and that only an
  -- absolute path which does not end with a separator is seen not to end with one afterwards.
  pub local_format_lem :
      (path : Str) (dir_op : Bool)
      → ends_with (os.abspath path) os.sep ≡ false
      → let (formatted, use_src_name) = local_format os path dir_op in
        (use_src_name ≡ (
          os.exists (os.abspath path) && os.isdir (os.abspath path)
          || dir_op
          || ends_with path os.sep))
        × (ends_with formatted os.sep ≡ use_src_name)
  unfolding local_format
  local_format_lem path dir_op h = ground (arith, ends_with-append (os.abspath path) os.sep)

  abbrev pub separator : Location → ℕ
  separator s3 = b'/'
  separator local = os.sep

  format_path-dir_op :
      (l : Location) (path : Str)
      → (ends_with (format_path os l path true).0 (separator l) ≡ true)
        × ((format_path os l path true).1 ≡ true)
  unfolding s3_format local_format
  format_path-dir_op s3 path = ground (arith, ends_with-append path b'/')
  format_path-dir_op local path = ground (arith, ends_with-append (os.abspath path) os.sep)

  -- On a directory both formatted paths end with the separator of their side, and the name of the
  -- source is taken over, whichever way the transfer goes.
  pub format-dir_op :
      (src dest : Str)
      → let files = format os src dest true in
        (ends_with files.src.path (separator files.src.location) ≡ true)
        × (ends_with files.dest.path (separator files.dest.location) ≡ true)
        × (files.use_src_name ≡ true)
  unfolding format
  format-dir_op src dest =
      let (s, p) = identify_type src in
      let (d, q) = identify_type dest in
      ((format_path-dir_op s p).0, (format_path-dir_op d q).0, (format_path-dir_op d q).1)

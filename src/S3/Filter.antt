-- ===== src/S3/Filter.antt =====
-- awscli/customizations/s3/filters.py: the `--exclude` and `--include` rules.
pub mod Rules
use mathlib.Core.List.{map}
use m_awsexp.Common.{
  ℕ, Bool, Str, codes, ◌∷◌, if◌then◌else◌, Option, replace, List, split, starts_with, join, [],
  some, ◌==◌, ◌++◌, true, str_eq, none, ◌&&◌, ends_with, false, not,
}
use m_awsexp.S3.Os.{Os}
use m_awsexp.S3.FileStat.{FileStat, s3, local}
use m_awsexp.S3.Path.{split_s3_bucket_key, s3_prefix}

-- A rule: its type, and its pattern.
abbrev pub Pattern : Type 0
Pattern = Str × Str

pub record Filter : Type 0 where
  pub patterns : List Pattern
  pub dst_patterns : List Pattern

-- What create_filter reads of the parameters; `filters` is empty where the source has None.
pub record Parameters : Type 0 where
  pub filters : List Pattern
  pub src : Str
  pub dest : Str
  pub dir_op : Bool

-- parts[:-1]
but_last : List Str → List Str
but_last [] = []
but_last (p ∷ []) = []
but_last (p ∷ q ∷ ps) = p ∷ but_last (q ∷ ps)

-- text.lstrip('-')
lstrip_dash : Str → Str
lstrip_dash [] = []
lstrip_dash (c ∷ s) = let rest = lstrip_dash s in if c == b'-' then rest else c ∷ s

-- AppendFilter.__call__: `[option_string, values[0]]` goes to the end of the list
unfoldable pub append_filter : List Pattern → Str → Str → List Pattern
append_filter filter_list option_string value = filter_list ++ ((option_string, value) ∷ [])

-- _get_s3_root
unfoldable pub get_s3_root : Str → Bool → Str
unfolding split_s3_bucket_key split join ends_with but_last
get_s3_root source_location dir_op =
    let (bucket, key) = split_s3_bucket_key source_location in
    let key' =
      if not dir_op && not (ends_with key b'/')
      then join b'/' (but_last (split b'/' key))
      else key in
    join b'/' (bucket ∷ key' ∷ [])

abbrev pub updated : Bool → Option Bool → Bool
updated status none = status
updated status (some new) = new

module _ (os : Os) where
  -- _get_local_root
  unfoldable pub get_local_root : Str → Bool → Str
  get_local_root source_location dir_op =
      if dir_op then os.abspath source_location else os.abspath (os.dirname source_location)

  -- _full_path_patterns
  unfoldable pub full_path_patterns : List Pattern → Str → List Pattern
  full_path_patterns [] rootdir = []
  full_path_patterns ((kind, pattern) ∷ rest) rootdir =
      (kind, os.join rootdir pattern) ∷ full_path_patterns rest rootdir

  abbrev pub make_filter : List Pattern → Str → Str → Filter
  make_filter patterns rootdir dst_rootdir = record {
    patterns = full_path_patterns patterns rootdir;
    dst_patterns = full_path_patterns patterns dst_rootdir;
  }

  unfoldable pub create_filter : Parameters → Filter
  unfolding lstrip_dash full_path_patterns get_s3_root get_local_root starts_with
  create_filter params =
      let real_filters = map (λ (kind, pattern). (lstrip_dash kind, pattern)) params.filters in
      if starts_with params.src s3_prefix
      then make_filter real_filters (get_s3_root params.src params.dir_op)
          (get_local_root params.dest params.dir_op)
      else make_filter real_filters (get_local_root params.src params.dir_op)
          (get_s3_root params.dest params.dir_op)

  -- _match_pattern: the new status, or `none` for the `None` that changes nothing
  unfoldable pub match_pattern : Pattern → FileStat → Option Bool
  unfolding replace str_eq
  match_pattern (pattern_type, pattern) file_info =
      let path_pattern : Str = elim (file_info.src_type) [
        | local ↦ replace pattern b'/' os.sep
        | s3 ↦ replace pattern os.sep b'/'
      ] in
      let is_match = os.fnmatch file_info.src path_pattern in
      if is_match && str_eq pattern_type (codes "include")
      then some true
      else if is_match && str_eq pattern_type (codes "exclude")
      then some false
      else none

  -- the loop over `zip(self.patterns, self.dst_patterns)`
  unfoldable pub status_after : List Pattern → List Pattern → FileStat → Bool → Bool
  status_after (p ∷ ps) (d ∷ ds) file_info status =
      status_after ps ds file_info
        (updated (updated status (match_pattern p file_info)) (match_pattern d file_info))
  status_after _ _ file_info status = status

  -- Filter.call
  unfoldable pub call : Filter → List FileStat → List FileStat
  unfolding status_after
  call f [] = []
  call f (file_info ∷ rest) =
      let kept = call f rest in
      if status_after f.patterns f.dst_patterns file_info true then file_info ∷ kept else kept

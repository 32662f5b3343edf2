-- ===== src/S3/Command/Moves.antt =====
-- What `_same_path` keeps a move of one object from.
use m_awsexp.Common.{
  Free, Str, split, ends_with, ◌≡◌, last_part, true, ◌++◌, ◌∷◌, [], false, starts_with-drop,
  last_part-cons, if◌then◌else◌, Bool-cases, split-ne-nil, split-All_Free, last_part-All, arith,
  ◌≢◌, ◌&&◌, str_eq, drop, not, inl, inr, ends_with-append_right, ap, Bool, str_eq_refl,
  starts_with, sym, ◌∙◌, replace_refl, refl,
}
use m_awsexp.S3.Command.{
  same_path, normalize_s3_trailing_slash, check_path_type, paths_type_of, s3s3, is_s3_path, Command,
  accepted, forced_dir_op, CommandParameters, add_paths, mv,
}
use m_awsexp.S3.Path.{s3_prefix, find_bucket_key, find_dest_path_comp_key}
use m_awsexp.S3.Os.{Os}
use m_awsexp.S3.FileFormat.{format, identify_type, s3_format}
use m_awsexp.S3.Command.Accepted.{add_paths-inversion}

-- The last component of an S3 path is that of its path in the bucket.
last_part-scheme :
    (path : Str) → last_part (split b'/' (s3_prefix ++ path)) ≡ last_part (split b'/' path)
unfolding split last_part
last_part-scheme path = last_part-cons [] (split b'/' path) (split-ne-nil b'/' path)

normalize_s3_trailing_slash-scheme :
    (path : Str)
    → is_s3_path path ≡ true
    → (a : Str) × (normalize_s3_trailing_slash path ≡ s3_prefix ++ a)
unfolding normalize_s3_trailing_slash
normalize_s3_trailing_slash-scheme path h =
    let e = starts_with-drop path s3_prefix h in
    elim (Bool-cases (
      is_s3_path path
      && (str_eq (find_bucket_key (drop 5 path)).1 [] && not (ends_with path b'/')))) [
        | inl yes_ ↦ (drop 5 path ++ b'/' ∷ [], rw yes_ (ap (λ s. s ++ b'/' ∷ []) e))
        | inr no_ ↦ (drop 5 path, rw no_ e)
      ]

paths_type_of-s3s3 :
    (cmd : Command) (src dest : Str)
    → check_path_type cmd (src ∷ dest ∷ []) ≡ accepted s3s3
    → (is_s3_path src ≡ true) × (is_s3_path dest ≡ true)
unfolding check_path_type paths_type_of
paths_type_of-s3s3 cmd src dest h = ground arith

-- What `os.path` does on POSIX: `join` of a path that ends with a slash and one that is not
-- absolute, and `basename`.
abbrev pub JoinsBelow : (Str → Str → Str) → Type 0
JoinsBelow path_join =
    (p n : Str)
    → ends_with p b'/' ≡ true
    → starts_with n (b'/' ∷ []) ≡ false
    → path_join p n ≡ p ++ n

abbrev pub IsBasename : (Str → Str) → Type 0
IsBasename basename = (p : Str) → basename p ≡ last_part (split b'/' p)

Free-relative : (s : Str) → Free b'/' s → starts_with s (b'/' ∷ []) ≡ false
unfolding starts_with
Free-relative [] f = refl
Free-relative (c ∷ s) (h, f) = ground (arith, h)

-- The last component of a path is no absolute path.
relative : (s : Str) → starts_with (last_part (split b'/' s)) (b'/' ∷ []) ≡ false
relative s = Free-relative _ (last_part-All (Free b'/') _ tt (split-All_Free b'/' s))

same_path-destination :
    (path_join : Str → Str → Str) (basename : Str → Str) (a d : Str)
    → JoinsBelow path_join
    → IsBasename basename
    → same_path path_join basename s3s3 (s3_prefix ++ a) (s3_prefix ++ d) ≡ false
    → (if ends_with d b'/' then d ++ last_part (split b'/' a) else d) ≢ a
unfolding same_path
same_path-destination path_join basename a d joins base h e =
    let src = s3_prefix ++ a in
    let dest = s3_prefix ++ d in
    elim (Bool-cases (ends_with d b'/')) [
      | inl below ↦
          let slash = ends_with-append_right s3_prefix d b'/' below in
          let name : d ++ last_part (split b'/' a) ≡ a = ground arith in
          let target : path_join dest (basename src) ≡ src =
            rw
              (
                joins dest (basename src) slash (rw (base src) (relative src)),
                base src,
                last_part-scheme a,
              )
              (ap (λ s. s3_prefix ++ s) name) in
          let same = str_eq_refl src in ground arith
      | inr whole ↦ let same = str_eq_refl src in ground arith
    ]

-- The source path of `files`, and the destination that the object there is given.
abbrev pub destination : Os → Str → Str → Bool → Str × Str
destination os src dest dir_op =
    let files = format os src dest dir_op in
    (files.src.path, (find_dest_path_comp_key os.sep files files.src.path).0)

s3_format_one : (path : Str) → s3_format path false ≡ (path, ends_with path b'/')
unfolding s3_format
s3_format_one path = ground arith

destination-s3s3 :
    (os : Os) (a d : Str)
    → destination os (s3_prefix ++ a) (s3_prefix ++ d) false
      ≡ (a, if ends_with d b'/' then d ++ last_part (split b'/' a) else d)
unfolding format identify_type find_dest_path_comp_key starts_with
destination-s3s3 os a d =
    rw (s3_format_one a, s3_format_one d, replace_refl (last_part (split b'/' a)) b'/')

same_path-apart :
    (path_join : Str → Str → Str) (basename : Str → Str) (os : Os) (p : CommandParameters)
    (a d : Str)
    → JoinsBelow path_join
    → IsBasename basename
    → p.paths_type ≡ s3s3
    → p.src ≡ s3_prefix ++ a
    → p.dest ≡ s3_prefix ++ d
    → p.dir_op ≡ false
    → same_path path_join basename p.paths_type p.src p.dest ≡ false
    → let (source, target) = destination os p.src p.dest p.dir_op in target ≢ source
same_path-apart path_join basename os p a d joins base type src dest one h =
    let apart : same_path path_join basename s3s3 (s3_prefix ++ a) (s3_prefix ++ d) ≡ false =
      rw (sym type, sym src, sym dest) h in
    let e = destination-s3s3 os a d in
    rw (src, dest, one)
      (λ same.
        same_path-destination path_join basename a d joins base apart
          (sym (ap (λ x. x.1) e) ∙ same ∙ ap (λ x. x.0) e))

-- If `add_paths` accepts the `mv` of one object in S3, then the object that it is copied to is not
-- the source, which is deleted afterwards. `os.path.join` and `os.path.basename` are as on POSIX.
pub add_paths-mv_apart :
    (path_join : Str → Str → Str) (basename : Str → Str) (os : Os) (quiet : Bool) (src dest : Str)
    (p : CommandParameters)
    → JoinsBelow path_join
    → IsBasename basename
    → add_paths path_join basename mv false quiet (src ∷ dest ∷ []) ≡ accepted p
    → p.paths_type ≡ s3s3
    → let (source, target) = destination os p.src p.dest p.dir_op in target ≢ source
unfolding forced_dir_op
add_paths-mv_apart path_join basename os quiet src dest p joins base h type =
    let (t, checked, (same_cmd, same_type, same_src, same_dest, dir, stream), apart) =
      add_paths-inversion path_join basename mv false quiet (src ∷ dest ∷ []) p h in
    let (src_s3, dest_s3) = paths_type_of-s3s3 mv src dest (rw (sym type ∙ same_type) checked) in
    let (a, e) = normalize_s3_trailing_slash-scheme src src_s3 in
    let (d, f) = normalize_s3_trailing_slash-scheme dest dest_s3 in
    same_path-apart path_join basename os p a d joins base type (same_src ∙ e) (same_dest ∙ f)
      (ground arith) (apart refl)

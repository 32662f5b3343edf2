-- ===== src/S3/Tests/Commands.antt =====
-- Commands as they are written, and what add_paths makes of them.
use m_awsexp.Common.{Str, last_part, codes, false, split, ◌≢◌, refl, true, ◌∷◌, [], ◌≡◌}
use m_awsexp.S3.Command.Moves.{destination, JoinsBelow, add_paths-mv_apart}
use m_awsexp.S3.Command.{
  add_paths, CommandParameters, check_path_type, mv, cp, validate_streaming_paths, s3local,
  validate_path_args, s3s3, normalize_s3_trailing_slash, forced_dir_op, accepted, refused,
  move_onto_itself,
}
use m_awsexp.S3.Tests.{posix}
use m_awsexp.S3.Tests.Listing.{posix_join}

abbrev bucket_path : Str
bucket_path = codes "s3://b"

abbrev object_path : Str
object_path = codes "s3://b/dir/k"

abbrev pub copied : CommandParameters
copied = record {
  cmd = cp;
  dir_op = false;
  paths_type = s3local;
  src = object_path;
  dest = codes "k";
  is_stream = false;
  only_show_errors = true;
}

abbrev moved : CommandParameters
moved = record {
  cmd = mv;
  dir_op = false;
  paths_type = s3s3;
  src = object_path;
  dest = codes "s3://b/";
  is_stream = false;
  only_show_errors = false;
}

abbrev pub posix_basename : Str → Str
posix_basename p = last_part (split b'/' p)

pub copied_accepted :
    add_paths posix_join posix_basename cp false true (object_path ∷ codes "k" ∷ [])
    ≡ accepted copied
unfolding add_paths check_path_type validate_streaming_paths validate_path_args
    normalize_s3_trailing_slash forced_dir_op
copied_accepted = refl

moved_accepted :
    add_paths posix_join posix_basename mv false false (object_path ∷ bucket_path ∷ [])
    ≡ accepted moved
unfolding add_paths check_path_type validate_streaming_paths validate_path_args
    normalize_s3_trailing_slash forced_dir_op last_part
moved_accepted = refl

-- The last name of the source, taken over, is the object itself.
refused_example :
    add_paths posix_join posix_basename mv false false (codes "s3://b/k" ∷ bucket_path ∷ [])
    ≡ refused move_onto_itself
unfolding add_paths check_path_type validate_streaming_paths validate_path_args
    normalize_s3_trailing_slash forced_dir_op last_part
refused_example = refl

-- With --recursive the same two paths but for a slash name the same objects, and are accepted.
recursive_example :
    add_paths posix_join posix_basename mv true false (codes "s3://b/k" ∷ codes "s3://b/k/" ∷ [])
    ≡ accepted (record moved { dir_op = true; src = codes "s3://b/k"; dest = codes "s3://b/k/" })
unfolding add_paths check_path_type validate_streaming_paths validate_path_args
    normalize_s3_trailing_slash forced_dir_op last_part
recursive_example = refl

posix_join-JoinsBelow : JoinsBelow posix_join
posix_join-JoinsBelow p n h r = rw (r, h)

add_paths-mv_apart_example :
    let (source, target) = destination posix moved.src moved.dest moved.dir_op in target ≢ source
add_paths-mv_apart_example =
    add_paths-mv_apart posix_join posix_basename posix false object_path bucket_path moved
      posix_join-JoinsBelow (λ p. refl) moved_accepted refl

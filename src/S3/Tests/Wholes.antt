-- ===== src/S3/Tests/Wholes.antt =====
-- A `sync` of a small tree to a bucket, from its paths to its exit status.
use m_awsexp.S3.FileGenerator.{list_objects}
use m_awsexp.S3.FileStat.{download}
use m_awsexp.S3.Comparator
use m_awsexp.Common.{
  Str, str_lt, Bool, [], false, true, refl, ◌≡◌, codes, some, ◌∷◌, inl, arith, inr, length, str_eq,
  none,
}
use m_awsexp.S3.Run.{World, run, listed, exits, ended}
use m_awsexp.S3.Command.{add_paths, CommandParameters, sync, locals3, accepted, cp, operation_name}
use m_awsexp.S3.Run.Whole.{IsProperWorld, IsSynced, run-joined}
use m_awsexp.S3.FileFormat.{format}
use m_awsexp.S3.Tests.{posix}
use m_awsexp.S3.Tests.Listing.{posix_join}
use m_awsexp.S3.Tests.Commands.{posix_basename, copied, copied_accepted}
use m_awsexp.S3.Tests.Listing.{small_height, small_disk, small_disk-IsTree}
use m_awsexp.S3.Strategy.{
  choose_sync_strategies, determine_should_sync, registered_strategies, use_sync_strategy,
  compare_time,
}
use m_awsexp.S3.Strategy.Choice.{responses_for}
use m_awsexp.S3.DateTime.{total_seconds, sub_datetime}
use m_awsexp.S3.Run.Pipeline.{run-pipeline, handler, handed_over}
use m_awsexp.S3.FileStat.{Operation}

abbrev no_flags : Str → Bool
no_flags name = false

-- The handler fails on every file that it is given.
abbrev small_world : World
small_world = record {
  os = posix;
  disk = small_disk;
  depth = 3;
  follow_symlinks = true;
  list_objects = λ p. (codes "b/old", 1, 5) ∷ (codes "b/y.x", 1, 20) ∷ [];
  strategies = choose_sync_strategies (responses_for no_flags);
  head_object = λ p. none;
  enqueue = λ x. elim x [ listed fs ↦ some (length fs, 0) | _ ↦ some (0, 0) ];
  stream = λ x. some (0, 0);
}

abbrev synced : CommandParameters
synced = record {
  cmd = sync;
  dir_op = true;
  paths_type = locals3;
  src = codes "d";
  dest = codes "s3://b/";
  is_stream = false;
  only_show_errors = false;
}

-- Of `y/z` and `y.x` only the first is to be sent: the second is newer in the bucket.
status_example : run small_world synced [] ≡ exits 1
unfolding run str_lt Comparator.call Comparator.advance Comparator.compare_comp_key
    determine_should_sync choose_sync_strategies registered_strategies use_sync_strategy
    compare_time total_seconds sub_datetime
status_example = refl

small_world_proper : IsProperWorld small_world small_height no_flags
small_world_proper = record { tree = small_disk-IsTree; sep_lem = refl; strategies_lem = refl }

synced_accepted :
    add_paths posix_join posix_basename sync false false (codes "d" ∷ codes "s3://b" ∷ [])
    ≡ accepted synced
unfolding add_paths
synced_accepted = refl

run-joined_example : IsSynced small_world synced []
unfolding format str_lt str_eq
run-joined_example =
    run-joined small_world small_height no_flags posix_join posix_basename false false
      (codes "d" ∷ codes "s3://b" ∷ []) synced [] small_world_proper synced_accepted
      (inl (refl, omega arith))
      (inr (refl, ((codes "old", refl), ((codes "y.x", refl), tt)), ((refl, tt), (tt, tt))))

run-pipeline_example :
    (o : Operation) × (operation_name copied.paths_type cp ≡ some o)
    × (run small_world copied []
        ≡ ended
            (handler small_world copied [] false (handed_over small_world copied [] cp false o)))
run-pipeline_example =
    run-pipeline small_world posix_join posix_basename cp false true
      (codes "s3://b/dir/k" ∷ codes "k" ∷ []) copied [] copied_accepted

-- A single object is asked for by its name, also if it looks like a folder.
single_object_example :
    list_objects download false (codes "b/k/") (some (0, 7)) [] ≡ some ((codes "b/k/", 0, 7) ∷ [])
unfolding list_objects
single_object_example = refl

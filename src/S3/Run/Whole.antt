-- ===== src/S3/Run/Whole.antt =====
-- A `sync` from its two paths to its exit status: the checks, the listings, the rules, the
-- comparison, and what the handler is given.
use mathlib.Core.List.{Perm}
use m_awsexp.S3.Comparator
use m_awsexp.S3.Filter
use m_awsexp.Common.{
  ℕ, Str, Bool, ◌≡◌, true, ◌<◌, ends_with, ◌⊎◌, List, All, some, inl, sym, inr, ap, ◌∙◌, refl,
  false, arith,
}
use m_awsexp.S3.Run.{ended, generate, World, files_of, rev_files_of, listed, run}
use m_awsexp.S3.Path.{Files}
use m_awsexp.S3.FileStat.{Operation, local, s3, FileStat, unnamed}
use m_awsexp.S3.FileGenerator.Proper.{IsTree}
use m_awsexp.S3.Strategy.{choose_sync_strategies}
use m_awsexp.S3.Strategy.Choice.{responses_for, NeverRaises, choose_sync_strategies-NeverRaises}
use m_awsexp.S3.FileFormat.Laws.{separator, format-dir_op}
use m_awsexp.S3.Run.Listing.{Below, Ordered, call_s3-IsAscending}
use m_awsexp.S3.Comparator.Keys.{IsAscending}
use m_awsexp.S3.FileGenerator.Generated.{call_local-IsAscending}
use m_awsexp.S3.FileFormat.{format}
use m_awsexp.S3.Command.{
  CommandParameters, forced_dir_op, add_paths, sync, accepted, operation_name,
}
use m_awsexp.S3.Os.{Os}
use m_awsexp.S3.Command.Accepted.{add_paths-inversion, operations, check_path_type-is_allowed}
use m_awsexp.S3.Comparator.Join.{joined}
use m_awsexp.S3.Run.Sync.{filtered, filtered-IsAscending, run_by_operation, run_operation_sync}
use m_awsexp.S3.Comparator.Correct.{call-perm-joined}

-- A side that can be listed: a directory less deep than the bound, or a listing of the service.
abbrev pub IsListable : World → (Str → ℕ) → Files → Type 0
IsListable w height files =
    ((files.src.location ≡ local) × (height files.src.path < w.depth))
    ⊎ ((files.src.location ≡ s3)
        × All (Below files.src.path) (w.list_objects files.src.path)
        × Ordered (w.list_objects files.src.path))

-- What is known of the world: the disk is a tree and has the platform's separator, and the
-- strategies are those that the parameters choose.
pub record IsProperWorld (w : World) (height : Str → ℕ) (params : Str → Bool) : Type 0 where
  pub tree : IsTree w.disk height
  pub sep_lem : w.os.sep ≡ w.disk.sep
  pub strategies_lem : w.strategies ≡ choose_sync_strategies (responses_for params)

generate-IsAscending :
    (w : World) (height : Str → ℕ) (params : Str → Bool) (o : Operation) (files : Files)
    → IsProperWorld w height params
    → files.dir_op ≡ true
    → ends_with files.src.path (separator w.os files.src.location) ≡ true
    → IsListable w height files
    → (fs : List FileStat) × (generate w o files ≡ some fs) × IsAscending fs
unfolding generate
generate-IsAscending w height params o files proper dir ends (inl (here, low)) =
    let path = files.src.path in
    let ends' =
      ap (λ c. ends_with path c) (sym proper.sep_lem)
      ∙ ap (λ l. ends_with path (separator w.os l)) (sym here)
      ∙ ends in
    let (fs, e, a) =
      call_local-IsAscending w.disk w.follow_symlinks height proper.tree files o dir here w.depth
        ends' low in
    (fs, rw (generate, here) e, a)
generate-IsAscending w height params o files proper dir ends (inr (there, below, ordered)) =
    let (fs, e, a) =
      call_s3-IsAscending w.os.sep files o dir there (w.head_object files.src.path)
        (w.list_objects files.src.path) dir below ordered in
    (fs, rw (generate, there) e, a)

format_dir :
    (os : Os) (src dest : Str) (dir_op : Bool)
    → dir_op ≡ true
    → let files = format os src dest dir_op in
      (files.dir_op ≡ true) × (ends_with files.src.path (separator os files.src.location) ≡ true)
unfolding format
format_dir os src dest dir_op e = rw e (refl, (format-dir_op os src dest).0)

-- What the parameters of an accepted sync are.
accepted_sync :
    (path_join : Str → Str → Str) (basename : Str → Str) (dir_op quiet : Bool) (paths : List Str)
    (p : CommandParameters)
    → add_paths path_join basename sync dir_op quiet paths ≡ accepted p
    → (p.cmd ≡ sync)
      × (p.dir_op ≡ true)
      × (p.is_stream ≡ false)
      × ((o : Operation) × (operation_name p.paths_type sync ≡ some o))
unfolding forced_dir_op
accepted_sync path_join basename dir_op quiet paths p h =
    let (t, checked, (same_cmd, same_type, a, b, dir, stream), apart) =
      add_paths-inversion path_join basename sync dir_op quiet paths p h in
    (
      same_cmd,
      ground arith,
      ground arith,
      rw same_type (operations t sync (check_path_type-is_allowed sync paths t checked)),
    )

-- A run of a sync that comes to its handler, which is given, up to order, the join by compare key of
-- the two listings behind the rules, and ends as the handler does.
abbrev pub IsSynced : World → CommandParameters → List Filter.Pattern → Type 0
IsSynced w p patterns =
    (o : Operation) × (src_files : List FileStat) × (dest_files : List FileStat) × (files : List
      FileStat)
    × (generate w o (files_of w p patterns) ≡ some src_files)
    × (generate w unnamed (rev_files_of w p patterns) ≡ some dest_files)
    × Perm files
        (joined w.strategies (filtered w p patterns src_files) (filtered w p patterns dest_files))
    × (run w p patterns ≡ ended (w.enqueue (listed files)))

-- For an accepted `sync` whose two sides can be listed, with the strategies that its parameters
-- choose: the handler is given a list of files which is, up to order, the join by compare key of the
-- two listings behind the rules. If the handler returns, the run exits with the status of its counts.
pub run-joined :
    (w : World) (height : Str → ℕ) (params : Str → Bool) (path_join : Str → Str → Str)
    (basename : Str → Str) (dir_op quiet : Bool) (paths : List Str) (p : CommandParameters)
    (patterns : List Filter.Pattern)
    → IsProperWorld w height params
    → add_paths path_join basename sync dir_op quiet paths ≡ accepted p
    → IsListable w height (files_of w p patterns)
    → IsListable w height (rev_files_of w p patterns)
    → IsSynced w p patterns
run-joined w height params path_join basename dir_op quiet paths p patterns proper accept here
      there =
    let (cmd, dir, stream, (o, name)) =
      accepted_sync path_join basename dir_op quiet paths p accept in
    let (dir_src, ends_src) = format_dir w.os p.src p.dest p.dir_op dir in
    let (dir_dest, ends_dest) = format_dir w.os p.dest p.src p.dir_op dir in
    let (src, e, as') =
      generate-IsAscending w height params o (files_of w p patterns) proper dir_src ends_src here in
    let (dest, f, ad) =
      generate-IsAscending w height params unnamed (rev_files_of w p patterns) proper dir_dest
        ends_dest there in
    let safe : NeverRaises w.strategies =
      rw proper.strategies_lem (choose_sync_strategies-NeverRaises params) in
    let (finished, perm) =
      call-perm-joined safe (filtered w p patterns src) (filtered w p patterns dest)
        (filtered-IsAscending w p patterns src as') (filtered-IsAscending w p patterns dest ad) in
    (
      o,
      src,
      dest,
      (Comparator.call w.strategies (filtered w p patterns src)
          (filtered w p patterns dest)).yielded,
      e,
      f,
      perm,
      run_by_operation w p patterns sync false o cmd stream name
          ∙ run_operation_sync w p patterns o src dest e f finished,
    )

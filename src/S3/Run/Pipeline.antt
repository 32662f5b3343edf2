-- ===== src/S3/Run/Pipeline.antt =====
-- What the handler of an accepted command is given, whichever the command is.
use m_awsexp.S3.Filter
use m_awsexp.Common.{
  if◌then◌else◌, ◌∙◌, ℕ, Option, Str, ◌≡◌, arith, some, Bool, ◌∷◌, List, [], refl, false, ◌⊎◌, true,
}
use m_awsexp.S3.Command.{
  create_instructions, Command, needs_filegenerator, CommandParameters, add_paths, accepted, cp,
  operation_name, sync, mb, mv, rm, rb,
}
use m_awsexp.S3.Run.{
  World, ended, has_filters, filtering, filter_of, generator, formatted, files_of, rev_files_of,
  comparing, building, task_info, stream_info, run_operation, Flow, wire, command_dict, setup,
  call_components, call_each, run,
}
use m_awsexp.S3.FileStat.{Operation, unnamed}
use m_awsexp.S3.Command.Accepted.{add_paths-inversion, operations, check_path_type-is_allowed}
use m_awsexp.S3.Run.Sync.{run_by_operation, handled}

module _ (w : World) (p : CommandParameters) (patterns : List Filter.Pattern) where
  -- One side of the command: its listing, behind the rules if there are any.
  abbrev side : Operation → Flow → Flow
  side o paths =
      let listing = generator w o (paths ∷ []) in
      if has_filters w p patterns
      then filtering w (filter_of w p patterns) (listing ∷ [])
      else listing

  -- What a command gives to its handler, without the instructions.
  abbrev pub handed_over : Command → Bool → Operation → Flow
  handed_over cmd true o = stream_info w p patterns o
  handed_over sync false o =
      let src = side o (formatted (files_of w p patterns)) in
      let dest = side unnamed (formatted (rev_files_of w p patterns)) in
      building w (comparing w (src ∷ dest ∷ []) ∷ [])
  handed_over mb false o = task_info (files_of w p patterns).src.path o
  handed_over rb false o = task_info (files_of w p patterns).src.path o
  handed_over cmd false o = building w (side o (formatted (files_of w p patterns)) ∷ [])

  -- The handler of a stream, or that of files.
  abbrev pub handler : Bool → Flow → Option (ℕ × ℕ)
  handler true = w.stream
  handler false = w.enqueue

run_operation_lem :
    (w : World) (p : CommandParameters) (patterns : List Filter.Pattern) (cmd : Command)
    (is_stream : Bool) (o : Operation)
    → (is_stream ≡ false) ⊎ (cmd ≡ cp)
    → run_operation w p patterns cmd is_stream o
      ≡ ended (handler w p patterns is_stream (handed_over w p patterns cmd is_stream o))
unfolding run_operation wire create_instructions needs_filegenerator command_dict setup
    call_components call_each
run_operation_lem w p [] sync false o h = handled w w.enqueue _
run_operation_lem w p (q ∷ qs) sync false o h = handled w w.enqueue _
run_operation_lem w p patterns cp true o h = handled w w.stream _
run_operation_lem w p [] cp false o h = handled w w.enqueue _
run_operation_lem w p (q ∷ qs) cp false o h = handled w w.enqueue _
run_operation_lem w p [] mv false o h = handled w w.enqueue _
run_operation_lem w p (q ∷ qs) mv false o h = handled w w.enqueue _
run_operation_lem w p [] rm false o h = handled w w.enqueue _
run_operation_lem w p (q ∷ qs) rm false o h = handled w w.enqueue _
run_operation_lem w p patterns mb false o h = handled w w.enqueue _
run_operation_lem w p patterns rb false o h = handled w w.enqueue _
run_operation_lem w p patterns _ true o h = absurd (ground arith)

-- For every command that `add_paths` accepts, the tables and the loop over the instructions amount
-- to one pipeline: the listing of the source, or for `sync` the comparison of the listings of both
-- sides, each behind the rules if there are any; for `mb` and `rb` the bucket; for a stream its one
-- file. What comes out is given to the handler, and the run ends as the handler does, with the exit
-- status of its counts if it returns: no lookup fails before.
pub run-pipeline :
    (w : World) (path_join : Str → Str → Str) (basename : Str → Str) (cmd : Command)
    (dir_op quiet : Bool) (paths : List Str) (p : CommandParameters)
    (patterns : List Filter.Pattern)
    → add_paths path_join basename cmd dir_op quiet paths ≡ accepted p
    → (o : Operation) × (operation_name p.paths_type cmd ≡ some o)
      × (run w p patterns
          ≡ ended (handler w p patterns p.is_stream (handed_over w p patterns cmd p.is_stream o)))
run-pipeline w path_join basename cmd dir_op quiet paths p patterns h =
    let (t, checked, (same_cmd, same_type, a, b, c, stream), apart) =
      add_paths-inversion path_join basename cmd dir_op quiet paths p h in
    let (o, name) = operations t cmd (check_path_type-is_allowed cmd paths t checked) in
    let named : operation_name p.paths_type cmd ≡ some o = rw same_type name in
    (
      o,
      named,
      run_by_operation w p patterns cmd p.is_stream o same_cmd refl named
          ∙ run_operation_lem w p patterns cmd p.is_stream o stream,
    )

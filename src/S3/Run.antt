-- ===== src/S3/Run.antt =====
-- `CommandArchitecture.run` of awscli/customizations/s3/subcommands.py: how a command's components
-- are wired together. What a generator yields over time is a list here.
pub mod Listing
pub mod Sync
pub mod Whole
pub mod Pipeline
use mathlib.Core.Option
use mathlib.Core.List.{map}
use m_awsexp.S3.Comparator
use m_awsexp.S3.Filter
use m_awsexp.Common.{
  ℕ, ◌∷◌, List, Option, none, if◌then◌else◌, some, Bool, Str, ltb, [], length, false, true,
}
use m_awsexp.S3.FileGenerator.{call_local, call_s3, Disk, file_stat, Listed}
use m_awsexp.S3.Path.{Files, find_dest_path_comp_key}
use m_awsexp.S3.FileStat.{Operation, FileStat, local, unnamed, s3}
use m_awsexp.S3.Command.{
  Command, CommandParameters, Instruction, operation_name, sync, exit_status, create_instructions,
  mb, rb, file_generator, cp, comparator, file_info_builder, s3_handler, filters,
}
use m_awsexp.S3.Filter.{Filter}
use m_awsexp.S3.Os.{Os}
use m_awsexp.S3.FileFormat.{format}
use m_awsexp.S3.Strategy.{SyncStrategies}
use m_awsexp.S3.DateTime.{DateTime}

-- What one component hands to the next: the formatted paths, files, the task of `mb` and `rb`, the
-- one file of a stream (its source, destination and compare key), or the CommandResult of a handler.
-- `failed` is a generator that ends by an exception, or an argument that the component does not
-- understand; `unreturned` is a handler that waits for ever.
pub data Flow : Type 0 where
  formatted : Files → Flow
  listed : List FileStat → Flow
  task_info : Str → Operation → Flow
  stream_file : Str → Str → Str → Operation → Flow
  command_result : ℕ → ℕ → Flow
  failed : Flow
  unreturned : Flow

-- How a run ends: with an exit status, by an exception, or not at all.
pub data Ending : Type 0 where
  exits : ℕ → Ending
  raises : Ending
  waits : Ending

-- The parts that the components are made of: the platform, the disk with the greatest depth of
-- directories, what the service lists of a path and knows of an object, the chosen strategies, and
-- the handlers with their counts of failures and warnings, `none` for one that does not return.
pub record World : Type 0 where
  pub os : Os
  pub disk : Disk
  pub depth : ℕ
  pub follow_symlinks : Bool
  pub list_objects : Str → List Listed
  pub head_object : Str → Option (ℕ × DateTime)
  pub strategies : SyncStrategies
  pub enqueue : Flow → Option (ℕ × ℕ)
  pub stream : Flow → Option (ℕ × ℕ)

-- CommandResult of a handler's counts
abbrev pub result_of : Option (ℕ × ℕ) → Flow
result_of none = unreturned
result_of (some (failures, warnings)) = command_result failures warnings

abbrev pub Component : Type 0
Component = List Flow → Flow

module _ (w : World) where
  -- FileGenerator.call, by function_table
  unfoldable pub generate : Operation → Files → Option (List FileStat)
  unfolding call_local call_s3
  generate operation files = elim (files.src.location) [
    | local ↦ call_local w.disk w.follow_symlinks operation w.depth files
    | s3 ↦
        call_s3 w.os.sep operation files (w.head_object files.src.path)
          (w.list_objects files.src.path)
  ]

  abbrev pub generator : Operation → Component
  generator operation (formatted files ∷ []) = elim (generate operation files) [
    | none ↦ failed
    | some fs ↦ listed fs
  ]
  generator operation _ = failed

  abbrev pub filtering : Filter → Component
  filtering f (listed fs ∷ []) = listed (Filter.call w.os f fs)
  filtering f _ = failed

  abbrev pub yielded_by : Comparator.Stream → Flow
  yielded_by st = elim (st.ending) [ Comparator.finished ↦ listed st.yielded | _ ↦ failed ]

  abbrev pub comparing : Component
  comparing (listed src ∷ listed dest ∷ []) = yielded_by (Comparator.call w.strategies src dest)
  comparing _ = failed

  -- FileInfoBuilder.call: the attributes of the files, and the same ones of the command for all
  abbrev pub building : Component
  building (listed fs ∷ []) = listed fs
  building _ = failed

  abbrev pub handling : (Flow → Option (ℕ × ℕ)) → Component
  handling handle (x ∷ []) = result_of (handle x)
  handling handle _ = failed

  -- command_dict[instruction]; `none` is a KeyError
  unfoldable pub command_dict :
      Command → Bool → Operation → Filter → Instruction → Option (List Component)
  unfolding generate
  command_dict sync is_stream o f file_generator = some (generator o ∷ generator unnamed ∷ [])
  command_dict sync is_stream o f filters = some (filtering f ∷ filtering f ∷ [])
  command_dict sync is_stream o f comparator = some (comparing ∷ [])
  command_dict sync is_stream o f file_info_builder = some (building ∷ [])
  command_dict sync is_stream o f s3_handler = some (handling w.enqueue ∷ [])
  command_dict mb is_stream o f s3_handler = some (handling w.enqueue ∷ [])
  command_dict rb is_stream o f s3_handler = some (handling w.enqueue ∷ [])
  command_dict mb is_stream o f _ = none
  command_dict rb is_stream o f _ = none
  command_dict cp true o f s3_handler = some (handling w.stream ∷ [])
  command_dict cp true o f _ = none
  command_dict cmd is_stream o f file_generator = some (generator o ∷ [])
  command_dict cmd is_stream o f filters = some (filtering f ∷ [])
  command_dict cmd is_stream o f comparator = none
  command_dict cmd is_stream o f file_info_builder = some (building ∷ [])
  command_dict cmd is_stream o f s3_handler = some (handling w.enqueue ∷ [])

-- One argument for each component; `none` is an IndexError.
unfoldable pub call_each : List Component → List Flow → Option (List Flow)
call_each [] files = some []
call_each (c ∷ cs) [] = none
call_each (c ∷ cs) (x ∷ files) = Option.map (◌∷◌ (c (x ∷ []))) (call_each cs files)

-- The loop over the components of one instruction.
unfoldable pub call_components : List Component → List Flow → Option (List Flow)
unfolding call_each
call_components components files =
    if ltb (length components) (length files)
    then some (map (λ c. c files) components)
    else call_each components files

-- The loop over the instructions.
unfoldable pub wire :
    (Instruction → Option (List Component)) → List Instruction → List Flow → Option (List Flow)
unfolding call_components
wire dict [] files = some files
wire dict (instruction ∷ instructions) files = elim (dict instruction) [
  | none ↦ none
  | some components ↦ elim (call_components components files) [
    | none ↦ none
    | some file_list ↦ wire dict instructions file_list
  ]
]

-- The exit status by `files[0]`.
abbrev pub status_of : Option (List Flow) → Ending
status_of (some (command_result failures warnings ∷ rest)) = exits (exit_status failures warnings)
status_of (some (unreturned ∷ rest)) = waits
status_of _ = raises

module _ (w : World) (p : CommandParameters) (patterns : List Filter.Pattern) where
  abbrev pub files_of : Files
  files_of = format w.os p.src p.dest p.dir_op

  abbrev pub rev_files_of : Files
  rev_files_of = format w.os p.dest p.src p.dir_op

  abbrev pub filter_of : Filter
  filter_of =
      Filter.create_filter w.os
        (record { filters = patterns; src = p.src; dest = p.dest; dir_op = p.dir_op })

  -- stream_file_info
  abbrev pub stream_info : Operation → Flow
  stream_info o =
      let (dest, compare_key) = find_dest_path_comp_key w.os.sep files_of files_of.src.path in
      stream_file files_of.src.path dest compare_key o

  -- command_dict['setup']
  unfoldable pub setup : Command → Bool → Operation → List Flow
  unfolding format find_dest_path_comp_key
  setup sync is_stream o = formatted files_of ∷ formatted rev_files_of ∷ []
  setup mb is_stream o = task_info files_of.src.path o ∷ []
  setup rb is_stream o = task_info files_of.src.path o ∷ []
  setup cp true o = stream_info o ∷ []
  setup cmd is_stream o = formatted files_of ∷ []

  abbrev pub has_filters : Bool
  has_filters = elim patterns [ [] ↦ false | ◌∷◌ q qs ↦ true ]

  -- create_instructions, and run behind the operation's name
  unfoldable pub run_operation : Command → Bool → Operation → Ending
  unfolding create_instructions wire command_dict setup exit_status
  run_operation cmd is_stream o = status_of (
      wire (command_dict w cmd is_stream o filter_of)
        (create_instructions cmd is_stream has_filters) (setup cmd is_stream o))

  unfoldable pub run : Ending
  unfolding operation_name run_operation
  run = elim (operation_name p.paths_type p.cmd) [
    | none ↦ raises
    | some o ↦ run_operation p.cmd p.is_stream o
  ]

-- A run by what its handler returns.
abbrev pub ended : Option (ℕ × ℕ) → Ending
ended none = waits
ended (some (failures, warnings)) = exits (exit_status failures warnings)

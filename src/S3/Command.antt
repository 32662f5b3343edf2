-- ===== src/S3/Command.antt =====
-- `CommandParameters` of awscli/customizations/s3/subcommands.py, and what `CommandArchitecture`
-- chooses by the command and its paths.
pub mod Accepted
pub mod Moves
use mathlib.Core.List.{map}
use m_awsexp.Common.{
  ℕ, Str, if◌then◌else◌, List, Option, Bool, starts_with, str_eq, true, codes, ◌∷◌, ends_with, ltb,
  false, some, ◌||◌, ◌&&◌, not, [], drop, ◌++◌, none,
}
use m_awsexp.S3.Path.{find_bucket_key, s3_prefix}
use m_awsexp.S3.FileStat.{
  Operation, upload, move, copy, download, delete, make_bucket, remove_bucket,
}

-- NAME of the commands that transfer
pub data Command : Type 0 where
  cp sync mv rm mb rb : Command

-- The keys of template_type.
pub data PathsType : Type 0 where
  s3s3 s3local locals3 only_s3 only_local locallocal : PathsType

pub record CommandParameters : Type 0 where
  pub cmd : Command
  pub dir_op : Bool
  pub paths_type : PathsType
  pub src : Str
  pub dest : Str
  pub is_stream : Bool
  pub only_show_errors : Bool

-- `invalid_paths` is the TypeError of check_path_type, `not_a_stream_command` and `move_onto_itself`
-- are the two ValueErrors, and `no_such_key` is the KeyError of template_type on more than two
-- paths, or none.
pub data Refusal : Type 0 where
  invalid_paths not_a_stream_command move_onto_itself no_such_key : Refusal

pub data Checked {ℓ} (A : Type ℓ) : Type ℓ where
  accepted : A → Checked A
  refused : Refusal → Checked A

infixl 5 ◌>>=◌
abbrev pub ◌>>=◌ {ℓ κ} : {A : Type ℓ} {B : Type κ} → Checked A → (A → Checked B) → Checked B
accepted a >>= f = f a
refused r >>= f = refused r

-- template_type
unfoldable pub is_allowed : PathsType → Command → Bool
is_allowed s3s3 cp = true
is_allowed s3s3 sync = true
is_allowed s3s3 mv = true
is_allowed s3local cp = true
is_allowed s3local sync = true
is_allowed s3local mv = true
is_allowed locals3 cp = true
is_allowed locals3 sync = true
is_allowed locals3 mv = true
is_allowed only_s3 mb = true
is_allowed only_s3 rb = true
is_allowed only_s3 rm = true
is_allowed _ _ = false

-- __init__: whether the operation is on a directory
unfoldable pub forced_dir_op : Command → Bool → Bool
forced_dir_op sync dir_op = true
forced_dir_op mb dir_op = true
forced_dir_op rb dir_op = true
forced_dir_op _ dir_op = dir_op

abbrev pub is_s3_path : Str → Bool
is_s3_path path = starts_with path s3_prefix

-- The loop of check_path_type, for the key that it joins.
unfoldable pub paths_type_of : List Str → Checked PathsType
unfolding starts_with
paths_type_of (p ∷ []) = accepted (if is_s3_path p then only_s3 else only_local)
paths_type_of (p ∷ q ∷ []) = accepted (
    if is_s3_path p
    then (if is_s3_path q then s3s3 else s3local)
    else (if is_s3_path q then locals3 else locallocal))
paths_type_of _ = refused no_such_key

-- check_path_type
unfoldable pub check_path_type : Command → List Str → Checked PathsType
unfolding paths_type_of is_allowed
check_path_type cmd paths =
    paths_type_of paths >>= λ t. if is_allowed t cmd then accepted t else refused invalid_paths

-- _normalize_s3_trailing_slash, for one path
unfoldable pub normalize_s3_trailing_slash : Str → Str
unfolding find_bucket_key starts_with ends_with str_eq
normalize_s3_trailing_slash path =
    if is_s3_path path && (str_eq (find_bucket_key (drop 5 path)).1 [] && not (ends_with path b'/'))
    then path ++ (b'/' ∷ [])
    else path

-- _validate_streaming_paths
unfoldable pub validate_streaming_paths : CommandParameters → Checked CommandParameters
unfolding str_eq
validate_streaming_paths p =
    if str_eq p.src (codes "-") || str_eq p.dest (codes "-")
    then elim (p.cmd) [
      | cp ↦ accepted (record p { is_stream = true; dir_op = false; only_show_errors = true })
      | _ ↦ refused not_a_stream_command
    ]
    else accepted (record p { is_stream = false })

-- src and dest of add_paths
abbrev pub source_of : List Str → Str
source_of [] = []
source_of (p ∷ ps) = p

abbrev pub destination_of : List Str → Str
destination_of [] = []
destination_of (p ∷ []) = p
destination_of (p ∷ q ∷ ps) = q

-- What __init__ and add_paths have set before the two validations.
abbrev pub initial_parameters : Command → Bool → Bool → List Str → PathsType → CommandParameters
initial_parameters cmd dir_op only_show_errors paths paths_type =
    let normalized = map normalize_s3_trailing_slash paths in
    record {
      cmd = cmd;
      dir_op = forced_dir_op cmd dir_op;
      paths_type = paths_type;
      src = source_of normalized;
      dest = destination_of normalized;
      is_stream = false;
      only_show_errors = only_show_errors;
    }

-- The platform's os.path.join and os.path.basename.
module _ (path_join : Str → Str → Str) (basename : Str → Str) where
  -- _same_path; where it comes to its end the source returns None
  unfoldable pub same_path : PathsType → Str → Str → Bool
  unfolding str_eq ends_with
  same_path s3s3 src dest =
      str_eq src dest || (ends_with dest b'/' && str_eq src (path_join dest (basename src)))
  same_path _ src dest = false

  -- _validate_path_args
  unfoldable pub validate_path_args : CommandParameters → Checked CommandParameters
  unfolding same_path
  validate_path_args p = elim (p.cmd) [
    | mv ↦ if same_path p.paths_type p.src p.dest then refused move_onto_itself else accepted p
    | _ ↦ accepted p
  ]

  -- __init__ and add_paths, for the command and its `dir_op` and `only_show_errors` flags
  unfoldable pub add_paths : Command → Bool → Bool → List Str → Checked CommandParameters
  unfolding check_path_type validate_streaming_paths validate_path_args normalize_s3_trailing_slash
      forced_dir_op
  add_paths cmd dir_op only_show_errors paths = do
    paths_type ← check_path_type cmd paths
    p ← validate_streaming_paths (initial_parameters cmd dir_op only_show_errors paths paths_type)
    validate_path_args p

-- cmd_translation[paths_type][cmd]; `none` is a KeyError
unfoldable pub operation_name : PathsType → Command → Option Operation
operation_name locals3 cp = some upload
operation_name locals3 sync = some upload
operation_name locals3 mv = some move
operation_name s3s3 cp = some copy
operation_name s3s3 sync = some copy
operation_name s3s3 mv = some move
operation_name s3local cp = some download
operation_name s3local sync = some download
operation_name s3local mv = some move
operation_name only_s3 rm = some delete
operation_name only_s3 mb = some make_bucket
operation_name only_s3 rb = some remove_bucket
operation_name _ _ = none

pub data Instruction : Type 0 where
  file_generator filters comparator file_info_builder s3_handler : Instruction

unfoldable pub needs_filegenerator : Command → Bool → Bool
needs_filegenerator mb is_stream = false
needs_filegenerator rb is_stream = false
needs_filegenerator _ is_stream = not is_stream

-- create_instructions; `has_filters` says whether there are any rules
unfoldable pub create_instructions : Command → Bool → Bool → List Instruction
unfolding needs_filegenerator
create_instructions cmd is_stream has_filters =
    let compared = elim cmd as (λ c. List Instruction) [
      | sync ↦ comparator ∷ file_info_builder ∷ []
      | _ ↦ file_info_builder ∷ []
    ] in
    (if needs_filegenerator cmd is_stream
      then file_generator ∷ (if has_filters then filters ∷ compared else compared)
      else [])
    ++ (s3_handler ∷ [])

-- The exit status of run, by the handler's counts.
unfoldable pub exit_status : ℕ → ℕ → ℕ
exit_status num_tasks_failed num_tasks_warned =
    if ltb 0 num_tasks_warned then 2 else if ltb 0 num_tasks_failed then 1 else 0

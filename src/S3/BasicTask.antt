-- ===== src/S3/BasicTask.antt =====
-- `BasicTask` of awscli/customizations/s3/tasks.py: a whole transfer as one task, with its retries,
-- and `print_operation`.
pub mod Retries
use m_awsexp.Common.{
  ℕ, Str, Bool, Option, if◌then◌else◌, false, [], true, codes, none, some, ◌++◌, suc, ◌+◌, zero,
}
use m_awsexp.S3.FileStat.{
  Operation, FileStat, Location, list_objects, upload, delete, download, make_bucket, s3, copy,
  remove_bucket, local, move, unnamed,
}

-- What one run of the file's operation comes to, with the text of the exception.
pub data Attempt : Type 0 where
  success : Attempt
  connection_error md5_error other_error : Str → Attempt

-- What the result queue is given; the source's PrintTask.
pub record PrintTask : Type 0 where
  pub message : Str
  pub error : Bool

-- The number of runs of the operation, and the message, if one is queued.
pub record Outcome : Type 0 where
  pub runs : ℕ
  pub queued : Option PrintTask

abbrev operation_text : Operation → Str
operation_text upload = codes "upload"
operation_text download = codes "download"
operation_text copy = codes "copy"
operation_text move = codes "move"
operation_text delete = codes "delete"
operation_text make_bucket = codes "make_bucket"
operation_text remove_bucket = codes "remove_bucket"
operation_text list_objects = codes "list_objects"
operation_text unnamed = []

-- operation_name not in ["delete", "make_bucket", "remove_bucket"]
abbrev has_destination : Operation → Bool
has_destination delete = false
has_destination make_bucket = false
has_destination remove_bucket = false
has_destination _ = true

module _ (relative_path : Str → Str) where
  -- a path as it is printed
  abbrev shown : Location → Str → Str
  shown s3 path = codes "s3://" ++ path
  shown local path = relative_path path

  unfoldable pub print_operation : FileStat → Bool → Bool → Str
  print_operation f failed dryrun =
      let name = operation_text f.operation_name in
      let prefixed = if dryrun then codes "(dryrun) " ++ name else name in
      let outcome = if failed then prefixed ++ codes " failed" else prefixed in
      let source = (outcome ++ codes ": ") ++ shown f.src_type f.src in
      if has_destination f.operation_name
      then (source ++ codes " to ") ++ shown f.dest_type f.dest
      else source

  -- _queue_print_message
  unfoldable pub queue_print_message : FileStat → Bool → Bool → Option Str → Option PrintTask
  unfolding print_operation
  queue_print_message f failed dryrun error_message = elim (f.operation_name) [
    | list_objects ↦ none
    | _ ↦
        let message = print_operation f failed dryrun in
        some (record {
          message = elim error_message [ none ↦ message | some e ↦ message ++ (codes " " ++ e) ];
          error = failed;
        })
  ]

  -- _execute_task: `run k` is what the k-th run comes to, and `runs` were made before
  unfoldable pub execute_task : FileStat → Bool → (ℕ → Attempt) → ℕ → ℕ → Str → Outcome
  unfolding queue_print_message
  execute_task f dryrun run zero runs last_error = record {
    runs = runs;
    queued = queue_print_message f true dryrun (some last_error);
  }
  execute_task f dryrun run (suc attempts) runs last_error =
      if dryrun
      then record { runs = runs; queued = queue_print_message f false dryrun none }
      else elim (run runs) [
        | success ↦ record { runs = runs + 1; queued = queue_print_message f false dryrun none }
        | connection_error e ↦ execute_task f dryrun run attempts (runs + 1) e
        | md5_error e ↦ execute_task f dryrun run attempts (runs + 1) e
        | other_error e ↦ record {
          runs = runs + 1;
          queued = queue_print_message f true dryrun (some e);
        }
      ]

  -- __call__
  unfoldable pub call : FileStat → Bool → (ℕ → Attempt) → Outcome
  unfolding execute_task
  call f dryrun run = execute_task f dryrun run 3 0 []

-- ===== src/S3/Handler.antt =====
-- `S3Handler` of awscli/customizations/s3/s3handler.py: which tasks it submits for the files that it
-- is given, and what it cleans up at its end. A task refers to the shared context of its transfer by
-- the context's position in `_multipart_uploads` or `_multipart_downloads`.
pub mod Parts
pub mod Cleanup
use mathlib.Core.List.{map}
use m_awsexp.Common.{
  ℕ, Str, if◌then◌else◌, List, Option, ◌*◌, Bool, ◌∷◌, true, ◌&&◌, ◌^◌, [], not, false, none, ◌+◌,
  str_eq, ◌||◌, ◌++◌, ltb, some, length,
}
use m_awsexp.S3.UploadContext.{
  ready, upload_cancelled, waiting, wait_for_upload_id, cancel_upload, UploadContext,
}
use m_awsexp.S3.FileStat.{Operation, Location, FileStat, upload, local, download, s3, move, copy}
use m_awsexp.S3.DownloadContext.{DownloadContext}
use m_awsexp.S3.Chunks.{find_chunksize, num_uploads, num_downloads}
use m_awsexp.S3.Path.{find_bucket_key}
use m_awsexp.S3.UploadContext
use m_awsexp.S3.DownloadContext
use m_awsexp.S3.UploadContext.Sorting.{range}

-- What the handler is given: a FileInfo, or a TaskInfo, which has no size.
pub data WorkItem : Type 0 where
  file_info : FileStat → WorkItem
  task_info : Str → Location → Operation → WorkItem

pub data ContextRef : Type 0 where
  upload_context download_context : ℕ → ContextRef

-- A part task holds its context, its part number, the chunk size and the file.
pub data Task : Type 0 where
  basic_task : WorkItem → Task
  create_multipart_upload complete_multipart_upload : ℕ → FileStat → Task
  upload_part copy_part download_part : ℕ → ℕ → ℕ → FileStat → Task
  create_local_file complete_download : ℕ → FileStat → Task
  remove_file : Str → ℕ → Task
  remove_remote_object : FileStat → ContextRef → Task

pub record Handler : Type 0 where
  pub submitted : List Task
  pub multipart_uploads : List (UploadContext × FileStat)
  pub multipart_downloads : List (DownloadContext × Str)

pub record Config : Type 0 where
  pub multi_threshold : ℕ
  pub chunksize : ℕ
  pub dryrun : Bool

-- `diverged` means that the fuel of find_chunksize ran out. `type_error` is the call of
-- create_warning by a keyword that it does not have.
pub data Exc : Type 0 where
  type_error diverged : Exc
  value_error : Location → Location → Exc

pub data Result {ℓ} (A : Type ℓ) : Type ℓ where
  returned : Handler → A → Result A
  raised : Handler → Exc → Result A

abbrev pub max_upload_size : ℕ
max_upload_size = 5 * 1024 ^ 4

-- _is_multipart_task; below the threshold the source returns None
unfoldable pub is_multipart_task : Config → WorkItem → Bool
is_multipart_task cfg (task_info src src_type operation) = false
is_multipart_task cfg (file_info f) = ltb cfg.multi_threshold f.size && elim (f.operation_name) [
  | upload ↦ true
  | download ↦ true
  | move ↦ true
  | copy ↦ true
  | _ ↦ false
]

-- _enqueue_multipart_upload_tasks and _enqueue_multipart_copy_tasks, by their class of part tasks;
-- `removal` is the task that a move submits last
unfoldable pub enqueue_upload_tasks :
    Config → (ℕ → ℕ → ℕ → FileStat → Task) → (ℕ → List Task) → FileStat → Handler → Result ℕ
enqueue_upload_tasks cfg task_class removal f h = elim (find_chunksize f.size cfg.chunksize) [
  | none ↦ raised h diverged
  | some c ↦
      let n = num_uploads f.size c in
      let context = length h.multipart_uploads in
      returned
        (record h {
          submitted =
              h.submitted
              ++ (create_multipart_upload context f
                  ∷ (map (λ i. task_class context i c f) (range 1 n)
                      ++ (complete_multipart_upload context f ∷ removal context)));
          multipart_uploads = h.multipart_uploads ++ ((UploadContext.init (some n), f) ∷ []);
        })
        n
]

-- _enqueue_range_download_tasks and _do_enqueue_range_download_tasks
unfoldable pub enqueue_range_download_tasks :
    Config → (ℕ → List Task) → FileStat → Handler → Result ℕ
enqueue_range_download_tasks cfg removal f h = elim (find_chunksize f.size cfg.chunksize) [
  | none ↦ raised h diverged
  | some c ↦
      let n = num_downloads f.size c in
      let context = length h.multipart_downloads in
      returned
        (record h {
          submitted =
              h.submitted
              ++ (create_local_file context f
                  ∷ (map (λ i. download_part context i c f) (range 0 n)
                      ++ (complete_download context f ∷ removal context)));
          multipart_downloads = h.multipart_downloads ++ ((DownloadContext.init n, f.dest) ∷ []);
        })
        n
]

abbrev pub nothing : ℕ → List Task
nothing context = []

-- _enqueue_multipart_tasks
unfoldable pub enqueue_multipart_tasks : Config → FileStat → Handler → Result ℕ
unfolding enqueue_upload_tasks enqueue_range_download_tasks
enqueue_multipart_tasks cfg f h = elim (f.operation_name) [
  | upload ↦ enqueue_upload_tasks cfg upload_part nothing f h
  | move ↦ elim (f.src_type) [
    | local ↦ elim (f.dest_type) [
      | s3 ↦ enqueue_upload_tasks cfg upload_part (λ k. remove_file f.src k ∷ []) f h
      | local ↦ raised h (value_error local local)
    ]
    | s3 ↦ elim (f.dest_type) [
      | local ↦
          enqueue_range_download_tasks cfg (λ k. remove_remote_object f (download_context k) ∷ []) f
            h
      | s3 ↦
          enqueue_upload_tasks cfg copy_part (λ k. remove_remote_object f (upload_context k) ∷ []) f
            h
    ]
  ]
  | copy ↦ enqueue_upload_tasks cfg copy_part nothing f h
  | download ↦ enqueue_range_download_tasks cfg nothing f h
  | _ ↦ returned h 1
]

abbrev is_upload : Operation → Bool
is_upload upload = true
is_upload _ = false

-- too_large and filename.operation_name == 'upload'
unfoldable pub is_too_large : WorkItem → Bool
is_too_large (task_info src src_type operation) = false
is_too_large (file_info f) = ltb max_upload_size f.size && is_upload f.operation_name

-- The body of the loop of _enqueue_tasks: the number of parts.
unfoldable pub enqueue_task : Config → WorkItem → Handler → Result ℕ
enqueue_task cfg item h =
    if is_too_large item
    then raised h type_error
    else if is_multipart_task cfg item && not cfg.dryrun
    then elim item [
      | file_info f ↦ enqueue_multipart_tasks cfg f h
      | task_info src src_type operation ↦ returned h 1
    ]
    else returned (record h { submitted = h.submitted ++ (basic_task item ∷ []) }) 1

-- _enqueue_tasks: `(total_files, total_parts)`, from the totals so far
unfoldable pub enqueue_tasks : Config → List WorkItem → ℕ → ℕ → Handler → Result (ℕ × ℕ)
enqueue_tasks cfg [] total_files total_parts h = returned h (total_files, total_parts)
enqueue_tasks cfg (item ∷ items) total_files total_parts h = elim (enqueue_task cfg item h) [
  | returned h' n ↦ enqueue_tasks cfg items (total_files + 1) (total_parts + n) h'
  | raised h' e ↦ raised h' e
]

-- The requests that _cancel_upload sends: bucket, key and upload id.
pub record Abort : Type 0 where
  pub bucket : Str
  pub key : Str
  pub upload_id : Option Str

abbrev pub abort_request : FileStat → Option Str → Abort
abort_request f upload_id =
    let (bucket, key) = find_bucket_key f.dest in
    record { bucket = bucket; key = key; upload_id = upload_id }

-- The explicit abort of a cancelled upload; the source catches UploadCancelledError.
unfoldable pub abort_cancelled : UploadContext × FileStat → List Abort
unfolding wait_for_upload_id
abort_cancelled (c, f) =
    if UploadContext.is_cancelled c
    then elim (wait_for_upload_id c) [
      | ready i ↦ abort_request f i ∷ []
      | upload_cancelled ↦ []
      | waiting ↦ []
    ]
    else []

-- The call of the canceller by cancel_upload.
unfoldable pub abort_started : UploadContext × FileStat → List Abort
unfolding cancel_upload
abort_started (c, f) = elim ((cancel_upload true c).0) [
  | none ↦ []
  | some i ↦ abort_request f i ∷ []
]

-- _abort_pending_multipart_uploads: the requests in their order, and the contexts
unfoldable pub abort_pending_multipart_uploads :
    List (UploadContext × FileStat) → List Abort × List (UploadContext × FileStat)
unfolding abort_cancelled abort_started
abort_pending_multipart_uploads [] = ([], [])
abort_pending_multipart_uploads (u ∷ us) =
    let (aborts, contexts) = abort_pending_multipart_uploads us in
    (abort_cancelled u ++ (abort_started u ++ aborts), ((cancel_upload true u.0).1, u.1) ∷ contexts)

-- os.path.exists after os.remove
abbrev pub without : Str → (Str → Bool) → Str → Bool
without name exists path = not (str_eq path name) && exists path

abbrev pub is_pending : DownloadContext → Bool
is_pending c = DownloadContext.is_cancelled c || DownloadContext.is_started c

-- _remove_pending_downloads: the files that exist afterwards, and the contexts
unfoldable pub remove_pending_downloads :
    List (DownloadContext × Str) → (Str → Bool) → (Str → Bool) × List (DownloadContext × Str)
remove_pending_downloads [] exists = (exists, [])
remove_pending_downloads ((c, name) ∷ ds) exists =
    let (left, contexts) =
      remove_pending_downloads ds
        (if is_pending c && exists name then without name exists else exists) in
    (left, (DownloadContext.cancel c, name) ∷ contexts)

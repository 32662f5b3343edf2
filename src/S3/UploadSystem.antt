-- ===== src/S3/UploadSystem.antt =====
-- A multipart upload as the threads of the executor carry it out: CreateMultipartUploadTask, the
-- UploadPartTask or CopyPartTask of each part, and CompleteMultipartUploadTask, of
-- awscli/customizations/s3/tasks.py, over one MultipartUploadContext, in any interleaving.
-- A step is what one task does between two releases of the context's lock; whether a request to the
-- service succeeds is left open.
pub mod Complete
use m_awsexp.Common.{ℕ, ◌≡◌, Option, some, List, [], ◌∷◌, ◌++◌, Str, false, true}
use m_awsexp.S3.UploadContext.{
  UploadContext, Part, ready, upload_cancelled, init, announce_upload_id, cancel_upload,
  wait_for_upload_id, announce_finished_part, wait_for_parts_to_finish, announce_completed,
}
use m_awsexp.S3.UploadContext.Sorting.{range}

pub record System : Type 0 where
  pub context : UploadContext
  -- part tasks that wait for the upload id, and those that are sending their part
  pub pending : List ℕ
  pub running : List ℕ
  -- part tasks that ended by an exception
  pub lost : List ℕ
  -- the part lists of the CompleteMultipartUpload requests that were sent
  pub requests : List (List Part)

-- _enqueue_multipart_upload_tasks and _enqueue_multipart_copy_tasks of s3handler.py, for `n` parts
abbrev pub enqueued : ℕ → System
enqueued n = record {
  context = init (some n);
  pending = range 1 n;
  running = [];
  lost = [];
  requests = [];
}

pub data Step : System → System → Type 0 where
  -- CreateMultipartUploadTask.__call__, by its outcome
  created : (s : System) (i : Str) → Step s (record s { context = announce_upload_id i s.context })
  create_failed : (s : System) → Step s (record s { context = (cancel_upload false s.context).1 })
  -- a part task gets the upload id, or UploadCancelledError
  part_started :
      (s : System) (xs ys : List ℕ) (n : ℕ) (i : Option Str)
      → s.pending ≡ xs ++ (n ∷ ys)
      → wait_for_upload_id s.context ≡ ready i
      → Step s (record s { pending = xs ++ ys; running = n ∷ s.running })
  part_skipped :
      (s : System) (xs ys : List ℕ) (n : ℕ)
      → s.pending ≡ xs ++ (n ∷ ys)
      → wait_for_upload_id s.context ≡ upload_cancelled
      → Step s (record s { pending = xs ++ ys; lost = n ∷ s.lost })
  -- the request for the part succeeds, or raises
  part_finished :
      (s : System) (xs ys : List ℕ) (n : ℕ) (etag : Str)
      → s.running ≡ xs ++ (n ∷ ys)
      → Step s (record s { context = announce_finished_part etag n s.context; running = xs ++ ys })
  part_failed :
      (s : System) (xs ys : List ℕ) (n : ℕ)
      → s.running ≡ xs ++ (n ∷ ys)
      → Step s (record s {
        context = (cancel_upload false s.context).1;
        running = xs ++ ys;
        lost = n ∷ s.lost;
      })
  -- CompleteMultipartUploadTask has its parts and sends its request
  complete_requested :
      (s : System) (ps : List Part)
      → wait_for_parts_to_finish s.context ≡ ready ps
      → Step s (record s { requests = ps ∷ s.requests })
  complete_succeeded : (s : System) → Step s (record s { context = announce_completed s.context })
  -- S3Handler._abort_pending_multipart_uploads, from the main thread
  aborted : (s : System) → Step s (record s { context = (cancel_upload true s.context).1 })

pub data Reach (n : ℕ) : System → Type 0 where
  start : Reach n (enqueued n)
  later : {s t : System} → Reach n s → Step s t → Reach n t

-- ===== src/S3/Tests/Transfer.antt =====
-- Examples for the transfers: chunks, bodies, the handler, and whole transfers as one task.
use m_awsexp.S3.UploadContext
use m_awsexp.S3.Tests.{file}
use m_awsexp.Common.{
  ℕ, ◌≡◌, List, ◌≤◌, ◌↔◌, false, [], codes, some, true, length, suc, Str, ◌<◌, All, ◌∷◌, min, arith,
  ◌+◌, ◌/◌, zero, ◌++◌, ◌⊎◌, ◌-◌, inr, none, refl,
}
use m_awsexp.S3.ReadFileChunk.{open_chunk, Bytes, seek, read}
use m_awsexp.S3.UploadContext.{UploadState, UploadContext}
use m_awsexp.S3.Handler.{
  Handler, Config, abort_pending_multipart_uploads, WorkItem, enqueue_tasks, file_info, returned,
}
use m_awsexp.S3.Chunks.{
  find_chunksize, num_downloads, covers, download_range, num_uploads, copy_range,
  max_single_upload_size, ceil_div, max_parts,
}
use m_awsexp.S3.ReadFileChunk.Parts.{bodies, bodies-eq-contents}
use m_awsexp.S3.PriorityQueue.{qsize, PriorityQueue, init, put, get, priority}
use m_awsexp.S3.BasicTask.Retries.{Ends, call-Ends}
use m_awsexp.S3.PriorityQueue.Stable.{
  Pops, order, insert_stable, get-order, qsize-order, IsWhole, put-order, init-IsWhole,
}
use m_awsexp.S3.BasicTask.{Attempt, md5_error, success}
use m_awsexp.S3.Handler.Cleanup.{abort_requests, abort_pending_multipart_uploads_lem}
use m_awsexp.S3.DownloadContext.{DownloadContext, DownloadState}
use m_awsexp.S3.ReadFileChunk.Window.{read_all, read_all_lem}
use m_awsexp.S3.Chunks.Size.{find_chunksize_fits}
use m_awsexp.S3.FileStat.{FileStat, upload}
use m_awsexp.S3.Chunks.Ranges.{copy_range_lem, download_range_lem}
use mathlib.Core.List.{map}
use m_awsexp.S3.Handler.Parts.{parts_of, enqueue_tasks-total_parts}

abbrev bytes : Bytes
bytes = codes "abcde"

bodies-eq-contents_example : bodies bytes 2 0 (num_uploads 5 2) ≡ bytes
bodies-eq-contents_example = bodies-eq-contents bytes 2 (omega arith)

read_all_lem_example :
    let r = open_chunk bytes 1 3 in
    let (first, r') = read_all (some 2 ∷ []) r in
    let (second, r'') = read_all [] (seek 0 r') in
    (first ++ (read none r').0 ≡ codes "bcd") × (second ++ (read none r'').0 ≡ codes "bcd")
read_all_lem_example = read_all_lem bytes 1 3 (some 2 ∷ []) [] (omega arith)

copy_range_lem_example :
    ((covers 5 (copy_range 5 2 3) 4 ≡ true) ↔ ((4 < 5) × (3 ≡ 4 / 2 + 1)))
    × ((5 ≤ 4) ⊎ (4 / 2 + 1 ≤ num_uploads 5 2))
copy_range_lem_example = copy_range_lem 5 2 3 4 (omega arith) (omega arith) (omega arith)

download_range_lem_example :
    ((part_number : ℕ)
      → part_number < num_downloads 5 2
      → (covers 5 (download_range 5 2 part_number) 4 ≡ true)
        ↔ ((4 < 5) × (part_number ≡ min (4 / 2) (num_downloads 5 2 - 1))))
    × ((5 < 2) ⊎ (min (4 / 2) (num_downloads 5 2 - 1) < num_downloads 5 2))
download_range_lem_example = download_range_lem 5 2 4 (omega arith)

find_chunksize_fits_example :
    (r : ℕ) × (find_chunksize 90000 8 ≡ some r)
    × (0 < r)
    × (r ≤ max_single_upload_size)
    × (ceil_div 90000 r ≤ max_parts)
find_chunksize_fits_example = find_chunksize_fits 90000 8 (omega arith) (omega arith)

find_chunksize-40000 : find_chunksize 40000 2 ≡ some 4
unfolding find_chunksize
find_chunksize-40000 = refl

abbrev config : Config
config = record { multi_threshold = 4; chunksize = 2; dryrun = false }

abbrev no_tasks : Handler
no_tasks = record { submitted = []; multipart_uploads = []; multipart_downloads = [] }

abbrev items : List WorkItem
items = file_info (file (codes "a") 5 10 upload) ∷ file_info (file (codes "b") 3 10 upload) ∷ []

enqueue_tasks-total_parts_example :
    (h : Handler) × (n : ℕ) × (enqueue_tasks config items 0 0 no_tasks ≡ returned h (2, 0 + n))
    × (parts_of h.submitted ≡ parts_of [] + n)
enqueue_tasks-total_parts_example =
    enqueue_tasks-total_parts config items 0 0 no_tasks (omega arith)
      ((omega arith, inr refl), ((omega arith, inr refl), tt))

abbrev upload_of : UploadState → UploadContext × FileStat
upload_of state = (
  record { upload_id = some (codes "id"); expected_parts = some 1; parts = []; state = state },
  file (codes "a") 5 10 upload,
)

abbrev uploads : List (UploadContext × FileStat)
uploads = upload_of UploadState.started ∷ upload_of UploadState.cancelled ∷ []

abort_pending_multipart_uploads_lem_example :
    ((abort_pending_multipart_uploads uploads).0 ≡ abort_requests uploads)
    × All
        (λ u. m_awsexp.S3.UploadContext.is_cancelled u.0 ≡ true)
        (abort_pending_multipart_uploads uploads).1
    × (map (λ u. u.1) (abort_pending_multipart_uploads uploads).1 ≡ map (λ u. u.1) uploads)
abort_pending_multipart_uploads_lem_example = abort_pending_multipart_uploads_lem uploads

abbrev downloads : List (DownloadContext × Str)
downloads =
    (
      record {
        num_parts = 2;
        state = DownloadState.started;
        finished_parts = [];
        current_stream_part_number = 0;
      },
      codes "a",
    )
    ∷ []

abbrev attempts : ℕ → Attempt
attempts zero = md5_error []
attempts (suc k) = success

call-Ends_example :
    Ends
      (λ path. path)
      attempts
      3
      0
      (m_awsexp.S3.BasicTask.call (λ path. path) (file (codes "a") 5 10 upload) false attempts)
call-Ends_example = call-Ends (λ path. path) (file (codes "a") 5 10 upload) attempts (λ e. cc)

abbrev queue : PriorityQueue ℕ
queue = init 2

put-order_example :
    (order (put (λ x. some x) 1 queue)
      ≡ insert_stable (priority (λ x. some x) queue 1) 1 (order queue))
    × IsWhole (put (λ x. some x) 1 queue)
put-order_example = put-order (λ x. some x) 1 queue (init-IsWhole 2)

get-order_example : Pops queue (order queue) (get queue)
get-order_example = get-order queue

qsize-order_example : qsize queue ≡ length (order queue)
qsize-order_example = qsize-order queue

-- ===== src/S3/Handler/Parts.antt =====
-- What `S3Handler._enqueue_tasks` submits and counts.
use mathlib.Core.List.{map}
use m_awsexp.Common.{
  ℕ, ◌≡◌, List, ◌<◌, ◌∷◌, ◌++◌, length, ◌+◌, arith, [], refl, ◌≤◌, ◌⊎◌, true, ltb, All, false,
  Bool-cases, ◌&&◌, not, inl, inr,
}
use m_awsexp.S3.Handler.{
  Task, Handler, basic_task, Result, upload_part, copy_part, returned, download_part,
  enqueue_upload_tasks, enqueue_range_download_tasks, WorkItem, task_info, Config, file_info,
  max_upload_size, create_local_file, create_multipart_upload, complete_multipart_upload,
  complete_download, enqueue_multipart_tasks, is_multipart_task, nothing, enqueue_task,
  is_too_large, remove_file, remove_remote_object, download_context, upload_context, enqueue_tasks,
}
use m_awsexp.S3.Chunks.{num_downloads, num_uploads}
use m_awsexp.S3.FileStat.{
  FileStat, s3, upload, download, copy, move, Operation, Location, delete, make_bucket,
  remove_bucket, list_objects, unnamed, local,
}
use m_awsexp.S3.Chunks.Size.{find_chunksize_fits}
use m_awsexp.S3.UploadContext.Sorting.{range}
use m_awsexp.S3.UploadSystem.Complete.{length-range}

-- The tasks that carry a part of a file, or a whole one.
abbrev pub is_part : Task → ℕ
is_part (basic_task item) = 1
is_part (upload_part context number size f) = 1
is_part (copy_part context number size f) = 1
is_part (download_part context number size f) = 1
is_part _ = 0

unfoldable pub parts_of : List Task → ℕ
parts_of [] = 0
parts_of (t ∷ ts) = is_part t + parts_of ts

parts_of-append : (ts us : List Task) → parts_of (ts ++ us) ≡ parts_of ts + parts_of us
unfolding parts_of
parts_of-append [] us = omega arith
parts_of-append (t ∷ ts) us = omega (arith, parts_of-append ts us)

parts_of-map :
    (part : ℕ → Task) (ns : List ℕ)
    → ((i : ℕ) → is_part (part i) ≡ 1)
    → parts_of (map part ns) ≡ length ns
unfolding parts_of
parts_of-map part [] h = refl
parts_of-map part (n ∷ ns) h = omega (arith, h n, parts_of-map part ns h)

-- A transfer in parts: a first task, the parts, and last tasks.
parts_of_transfer :
    (before : List Task) (first : Task) (part : ℕ → Task) (ns : List ℕ) (last : Task)
    (removal : List Task)
    → is_part first ≡ 0
    → ((i : ℕ) → is_part (part i) ≡ 1)
    → is_part last ≡ 0
    → parts_of removal ≡ 0
    → parts_of (before ++ (first ∷ (map part ns ++ (last ∷ removal)))) ≡ parts_of before + length ns
unfolding parts_of
parts_of_transfer before first part ns last removal hf hp hl hr = omega (
  arith,
  parts_of-append before (first ∷ (map part ns ++ (last ∷ removal))),
  parts_of-append (map part ns) (last ∷ removal),
  parts_of-map part ns hp,
  hf,
  hl,
  hr,
)

-- That a step returns and counts the parts that it submits.
abbrev Counts : Handler → Result ℕ → Type 0
Counts h r =
    (h' : Handler) × (n : ℕ) × (r ≡ returned h' n)
    × (parts_of h'.submitted ≡ parts_of h.submitted + n)

upload-Counts :
    (cfg : Config) (class : ℕ → ℕ → ℕ → FileStat → Task) (removal : ℕ → List Task) (f : FileStat)
    (h : Handler)
    → 0 < cfg.chunksize
    → f.size ≤ max_upload_size
    → ((k i c : ℕ) → is_part (class k i c f) ≡ 1)
    → ((k : ℕ) → parts_of (removal k) ≡ 0)
    → Counts h (enqueue_upload_tasks cfg class removal f h)
unfolding enqueue_upload_tasks
upload-Counts cfg class removal f h pos small hp hr =
    let (c, e, _, _, _) = find_chunksize_fits f.size cfg.chunksize pos (omega (arith, small)) in
    let k = length h.multipart_uploads in
    let counted =
      parts_of_transfer h.submitted (create_multipart_upload k f) (λ i. class k i c f)
        (range 1 (num_uploads f.size c)) (complete_multipart_upload k f) (removal k) refl
        (λ i. hp k i c) refl (hr k) in
    rw (enqueue_upload_tasks, e) (_, _, refl, rw (length-range 1 (num_uploads f.size c)) at counted)

download-Counts :
    (cfg : Config) (removal : ℕ → List Task) (f : FileStat) (h : Handler)
    → 0 < cfg.chunksize
    → f.size ≤ max_upload_size
    → ((k : ℕ) → parts_of (removal k) ≡ 0)
    → Counts h (enqueue_range_download_tasks cfg removal f h)
unfolding enqueue_range_download_tasks
download-Counts cfg removal f h pos small hr =
    let (c, e, _, _, _) = find_chunksize_fits f.size cfg.chunksize pos (omega (arith, small)) in
    let k = length h.multipart_downloads in
    let counted =
      parts_of_transfer h.submitted (create_local_file k f) (λ i. download_part k i c f)
        (range 0 (num_downloads f.size c)) (complete_download k f) (removal k) refl (λ i. refl) refl
        (hr k) in
    rw (enqueue_range_download_tasks, e)
      (_, _, refl, rw (length-range 0 (num_downloads f.size c)) at counted)

-- What the commands give the handler: no file above the limit of S3, and no move between two local
-- files.
abbrev pub IsSendable : WorkItem → Type 0
IsSendable (task_info src src_type operation) = Unit
IsSendable (file_info f) = (f.size ≤ max_upload_size) × ((f.src_type ≡ s3) ⊎ (f.dest_type ≡ s3))

move-Counts :
    (cfg : Config) (f : FileStat) (h : Handler) (a b : Location)
    → 0 < cfg.chunksize
    → f.size ≤ max_upload_size
    → (a ≡ s3) ⊎ (b ≡ s3)
    → f.operation_name ≡ move
    → f.src_type ≡ a
    → f.dest_type ≡ b
    → Counts h (enqueue_multipart_tasks cfg f h)
unfolding enqueue_multipart_tasks parts_of
move-Counts cfg f h local s3 pos small place m d e =
    rw (enqueue_multipart_tasks, m, d, e)
      (upload-Counts cfg upload_part (λ k. remove_file f.src k ∷ []) f h pos small (λ k i c. refl)
        (λ k. refl))
move-Counts cfg f h s3 local pos small place m d e =
    rw (enqueue_multipart_tasks, m, d, e)
      (download-Counts cfg (λ k. remove_remote_object f (download_context k) ∷ []) f h pos small
        (λ k. refl))
move-Counts cfg f h s3 s3 pos small place m d e =
    rw (enqueue_multipart_tasks, m, d, e)
      (upload-Counts cfg copy_part (λ k. remove_remote_object f (upload_context k) ∷ []) f h pos
        small (λ k i c. refl) (λ k. refl))
move-Counts cfg f h local local pos small place m d e = absurd (ground arith)

multipart-Counts :
    (cfg : Config) (f : FileStat) (h : Handler) (o : Operation)
    → 0 < cfg.chunksize
    → IsSendable (file_info f)
    → is_multipart_task cfg (file_info f) ≡ true
    → f.operation_name ≡ o
    → Counts h (enqueue_multipart_tasks cfg f h)
unfolding enqueue_multipart_tasks is_multipart_task parts_of
multipart-Counts cfg f h upload pos (small, place) m e =
    rw (enqueue_multipart_tasks, e)
      (upload-Counts cfg upload_part nothing f h pos small (λ k i c. refl) (λ k. refl))
multipart-Counts cfg f h download pos (small, place) m e =
    rw (enqueue_multipart_tasks, e) (download-Counts cfg nothing f h pos small (λ k. refl))
multipart-Counts cfg f h copy pos (small, place) m e =
    rw (enqueue_multipart_tasks, e)
      (upload-Counts cfg copy_part nothing f h pos small (λ k i c. refl) (λ k. refl))
multipart-Counts cfg f h move pos (small, place) m e =
    move-Counts cfg f h f.src_type f.dest_type pos small place e refl refl
multipart-Counts cfg f h delete pos (small, place) m e = absurd (ground arith)
multipart-Counts cfg f h make_bucket pos (small, place) m e = absurd (ground arith)
multipart-Counts cfg f h remove_bucket pos (small, place) m e = absurd (ground arith)
multipart-Counts cfg f h list_objects pos (small, place) m e = absurd (ground arith)
multipart-Counts cfg f h unnamed pos (small, place) m e = absurd (ground arith)

task-Counts :
    (cfg : Config) (item : WorkItem) (h : Handler)
    → 0 < cfg.chunksize
    → IsSendable item
    → Counts h (enqueue_task cfg item h)
unfolding enqueue_task is_too_large is_multipart_task parts_of
task-Counts cfg (task_info src src_type o) h pos ok =
    (_, 1, refl, parts_of-append h.submitted (basic_task (task_info src src_type o) ∷ []))
task-Counts cfg (file_info f) h pos (small, place) =
    let kept : ltb max_upload_size f.size ≡ false = ground arith in
    elim (Bool-cases (is_multipart_task cfg (file_info f) && not cfg.dryrun)) [
      | inl parts ↦
          rw (enqueue_task, is_too_large, kept, parts)
            (multipart-Counts cfg f h f.operation_name pos (small, place) (ground (arith, parts))
              refl)
      | inr whole ↦
          rw (enqueue_task, is_too_large, kept, whole)
            (_, 1, refl, parts_of-append h.submitted (basic_task (file_info f) ∷ []))
    ]

-- With a positive chunk size, for files within the limit of S3, `_enqueue_tasks` returns: the first
-- total is the number of the files, and the second is the number of the tasks that it has submitted
-- and that carry a part of a file or a whole one.
pub enqueue_tasks-total_parts :
    (cfg : Config) (items : List WorkItem) (total_files total_parts : ℕ) (h : Handler)
    → 0 < cfg.chunksize
    → All IsSendable items
    → (h' : Handler) × (n : ℕ) × (enqueue_tasks cfg items total_files total_parts h
        ≡ returned h' (total_files + length items, total_parts + n))
      × (parts_of h'.submitted ≡ parts_of h.submitted + n)
unfolding enqueue_tasks
enqueue_tasks-total_parts cfg [] total_files total_parts h pos ok = (h, 0, grind arith, omega arith)
enqueue_tasks-total_parts cfg (item ∷ items) total_files total_parts h pos (ok, oks) =
    let (h₁, n, e, counted) = task-Counts cfg item h pos ok in
    let (h₂, m, e', counted') =
      enqueue_tasks-total_parts cfg items (total_files + 1) (total_parts + n) h₁ pos oks in
    (h₂, n + m, rw (enqueue_tasks, e, e') (grind arith), omega (arith, counted, counted'))

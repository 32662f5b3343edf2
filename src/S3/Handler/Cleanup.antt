-- ===== src/S3/Handler/Cleanup.antt =====
-- What `S3Handler._shutdown` leaves behind.
use mathlib.Core.List.{map}
use m_awsexp.Common.{
  [], ◌∷◌, ◌≡◌, List, Str, All, [], Bool, false, true, ◌&&◌, if◌then◌else◌, ap, refl, str_eq, ◌||◌,
  ◌++◌,
}
use m_awsexp.S3.UploadContext
use m_awsexp.S3.UploadContext.{wait_for_upload_id, cancel_upload, UploadContext}
use m_awsexp.S3.Handler.{
  abort_cancelled, abort_pending_multipart_uploads, abort_started, Abort, is_pending, abort_request,
}
use m_awsexp.S3.DownloadContext.{DownloadContext}
use m_awsexp.S3.FileStat.{FileStat}

-- The requests for the uploads that have an upload id and are neither completed nor cancelled.
pub abort_requests : List (UploadContext × FileStat) → List Abort
abort_requests [] = []
abort_requests ((c, f) ∷ us) =
    let rest = abort_requests us in
    if UploadContext.in_progress c then abort_request f c.upload_id ∷ rest else rest

one_upload :
    (c : UploadContext) (f : FileStat) (state : UploadContext.UploadState) (rest : List Abort)
    → c.state ≡ state
    → abort_cancelled (c, f) ++ (abort_started (c, f) ++ rest)
      ≡ (if UploadContext.in_progress c then abort_request f c.upload_id ∷ rest else rest)
unfolding abort_cancelled abort_started wait_for_upload_id cancel_upload
one_upload c f UploadContext.unstarted rest h =
    rw (abort_cancelled, abort_started, wait_for_upload_id, cancel_upload, h) refl
one_upload c f UploadContext.started rest h =
    rw (abort_cancelled, abort_started, wait_for_upload_id, cancel_upload, h) refl
one_upload c f UploadContext.cancelled rest h =
    rw (abort_cancelled, abort_started, wait_for_upload_id, cancel_upload, h) refl
one_upload c f UploadContext.completed rest h =
    rw (abort_cancelled, abort_started, wait_for_upload_id, cancel_upload, h) refl

-- The shutdown sends one AbortMultipartUpload for each upload that is in progress, in their order,
-- and none for the others, among them those that a failed part has cancelled; every upload is
-- cancelled afterwards.
pub abort_pending_multipart_uploads_lem :
    (us : List (UploadContext × FileStat))
    → ((abort_pending_multipart_uploads us).0 ≡ abort_requests us)
      × All (λ u. UploadContext.is_cancelled u.0 ≡ true) (abort_pending_multipart_uploads us).1
      × (map (λ u. u.1) (abort_pending_multipart_uploads us).1 ≡ map (λ u. u.1) us)
unfolding abort_pending_multipart_uploads abort_requests abort_started cancel_upload
abort_pending_multipart_uploads_lem [] = (refl, tt, refl)
abort_pending_multipart_uploads_lem ((c, f) ∷ us) =
    let (aborts, cancelled, kept) = abort_pending_multipart_uploads_lem us in
    (rw (one_upload c f c.state _ refl, aborts) refl, (refl, cancelled), ap (◌∷◌ f) kept)

-- Whether the file is that of a download that was started or cancelled.
pub is_partial : List (DownloadContext × Str) → Str → Bool
is_partial [] path = false
is_partial ((c, name) ∷ ds) path =
    let rest = is_partial ds path in is_pending c && str_eq path name || rest

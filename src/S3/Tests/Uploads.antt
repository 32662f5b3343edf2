-- ===== src/S3/Tests/Uploads.antt =====
-- Examples for the interleavings of a multipart upload.
use m_awsexp.Common.{◌≡◌, All, codes, ◌≢◌, [], false, ◌∷◌, refl, some}
use m_awsexp.S3.UploadContext.{
  wait_for_parts_to_finish, announce_upload_id, announce_finished_part, wait_for_upload_id,
  cancel_upload, ready, sort_parts,
}
use m_awsexp.S3.UploadSystem.{
  System, Reach, enqueued, later, part_failed, part_finished, start, created, complete_requested,
  part_started,
}
use m_awsexp.S3.UploadContext.Sorting.{numbers, range}
use m_awsexp.S3.UploadSystem.Complete.{lost_part_blocks_completion, complete_requests_ordered}

abbrev begun : System
begun = enqueued 1

abbrev created_upload : System
created_upload = record begun { context = announce_upload_id (codes "id") begun.context }

abbrev sending : System
sending = record created_upload { pending = []; running = 1 ∷ [] }

abbrev sent : System
sent = record sending { context = announce_finished_part [] 1 sending.context; running = [] }

abbrev completing : System
completing = record sent { requests = (record { etag = []; part_number = 1 } ∷ []) ∷ [] }

abbrev failed : System
failed = record sending {
  context = (cancel_upload false sending.context).1;
  running = [];
  lost = 1 ∷ [];
}

sending-Reach : Reach 1 sending
unfolding announce_upload_id wait_for_upload_id range
sending-Reach =
    later (later start (created begun (codes "id")))
      (part_started created_upload [] [] 1 (some (codes "id")) refl refl)

completing-Reach : Reach 1 completing
unfolding announce_upload_id announce_finished_part wait_for_parts_to_finish sort_parts
completing-Reach =
    later (later sending-Reach (part_finished sending [] [] 1 [] refl))
      (complete_requested sent (record { etag = []; part_number = 1 } ∷ []) refl)

failed-Reach : Reach 1 failed
failed-Reach = later sending-Reach (part_failed sending [] [] 1 refl)

complete_requests_ordered_example : All (λ ps. numbers ps ≡ range 1 1) completing.requests
complete_requests_ordered_example = complete_requests_ordered completing-Reach

lost_part_blocks_completion_example :
    wait_for_parts_to_finish failed.context ≢ ready (record { etag = []; part_number = 1 } ∷ [])
lost_part_blocks_completion_example =
    lost_part_blocks_completion (record { etag = []; part_number = 1 } ∷ []) failed-Reach (λ e. cc)

-- ===== src/S3/UploadContext/Reachable.antt =====
-- What holds of an upload context after any calls of its methods, from any threads.
use m_awsexp.S3.UploadContext.{
  UploadContext, init, announce_upload_id, announce_finished_part, announce_total_parts,
  announce_completed, cancel_upload, started, unstarted,
}
use m_awsexp.Common.{Str, ◌≡◌, Option, ℕ, Bool, ◌≢◌, none, refl}

-- One call of a method that changes the state.
pub data Call : UploadContext → UploadContext → Type 0 where
  id_announced : (c : UploadContext) (i : Str) → Call c (announce_upload_id i c)
  part_announced :
      (c : UploadContext) (etag : Str) (n : ℕ) → Call c (announce_finished_part etag n c)
  total_announced : (c : UploadContext) (n : ℕ) → Call c (announce_total_parts n c)
  completion_announced : (c : UploadContext) → Call c (announce_completed c)
  upload_cancelled : (c : UploadContext) (b : Bool) → Call c (cancel_upload b c).1

pub data Calls (c : UploadContext) : UploadContext → Type 0 where
  none_yet : Calls c c
  then_call : {d e : UploadContext} → Calls c d → Call d e → Calls c e

-- A started upload has its id, and one with an id is not unstarted.
pub record IsSound (c : UploadContext) : Type 0 where
  pub has_id : c.state ≡ started → c.upload_id ≢ none
  pub not_unstarted : c.state ≡ unstarted → c.upload_id ≡ none

pub Call-IsSound : {c d : UploadContext} → Call c d → IsSound c → IsSound d
unfolding announce_upload_id announce_finished_part announce_total_parts announce_completed
    cancel_upload
Call-IsSound (id_announced c i) s = record { has_id = λ e. cc; not_unstarted = λ e. cc }
Call-IsSound (part_announced c etag n) s = record {
  has_id = s.has_id;
  not_unstarted = s.not_unstarted;
}
Call-IsSound (total_announced c n) s = record { has_id = s.has_id; not_unstarted = s.not_unstarted }
Call-IsSound (completion_announced c) s = record { has_id = λ e. cc; not_unstarted = λ e. cc }
Call-IsSound (upload_cancelled c b) s = record { has_id = λ e. cc; not_unstarted = λ e. cc }

pub init-IsSound : (expected : Option ℕ) → IsSound (init expected)
init-IsSound expected = record { has_id = λ e. cc; not_unstarted = λ e. refl }

-- After any calls a context that is in progress has its upload id, so a canceller is only ever
-- called with an id.
pub Calls-IsSound : (expected : Option ℕ) {c : UploadContext} → Calls (init expected) c → IsSound c
Calls-IsSound expected none_yet = init-IsSound expected
Calls-IsSound expected (then_call r k) = Call-IsSound k (Calls-IsSound expected r)

-- ===== src/S3/UploadContext.antt =====
-- `MultipartUploadContext` of awscli/customizations/s3/tasks.py. Every method holds the lock, so it
-- is one step on the state. A `wait_…` method is one turn of its loop: it returns, raises, or
-- waits.
pub mod Reachable
pub mod Sorting
use m_awsexp.Common.{
  ℕ, Bool, true, false, Option, none, some, List, length, leb, Str, if◌then◌else◌, ◌++◌, ltb, ◌∷◌,
  [], ◌&&◌,
}

pub data UploadState : Type 0 where
  unstarted started cancelled completed : UploadState

pub record Part : Type 0 where
  pub etag : Str
  pub part_number : ℕ

-- `expected_parts` is `none` while the number is not known, which the source writes as '...'.
pub record UploadContext : Type 0 where
  pub upload_id : Option Str
  pub expected_parts : Option ℕ
  pub parts : List Part
  pub state : UploadState

-- __init__
abbrev pub init : Option ℕ → UploadContext
init expected_parts = record {
  upload_id = none;
  expected_parts = expected_parts;
  parts = [];
  state = unstarted;
}

unfoldable pub announce_upload_id : Str → UploadContext → UploadContext
announce_upload_id upload_id c = record c { upload_id = some upload_id; state = started }

unfoldable pub announce_finished_part : Str → ℕ → UploadContext → UploadContext
announce_finished_part etag part_number c = record c {
  parts = c.parts ++ (record { etag = etag; part_number = part_number } ∷ []);
}

unfoldable pub announce_total_parts : ℕ → UploadContext → UploadContext
announce_total_parts total_parts c = record c { expected_parts = some total_parts }

unfoldable pub announce_completed : UploadContext → UploadContext
announce_completed c = record c { state = completed }

-- What one turn of a waiting loop comes to.
pub data Turn {ℓ} (A : Type ℓ) : Type ℓ where
  ready : A → Turn A
  upload_cancelled waiting : Turn A

-- sorted(parts, key=part_number), which keeps the order of equal keys
insert_part : Part → List Part → List Part
insert_part p [] = p ∷ []
insert_part p (q ∷ qs) =
    let rest = insert_part p qs in if leb p.part_number q.part_number then p ∷ q ∷ qs else q ∷ rest

unfoldable pub sort_parts : List Part → List Part
unfolding insert_part
sort_parts [] = []
sort_parts (p ∷ ps) = insert_part p (sort_parts ps)

-- self._expected_parts == '...' or len(self._parts) < self._expected_parts
abbrev pub parts_missing : UploadContext → Bool
parts_missing c = elim (c.expected_parts) [
  | none ↦ true
  | some expected ↦ ltb (length c.parts) expected
]

abbrev pub is_state : UploadState → UploadState → Bool
is_state unstarted unstarted = true
is_state started started = true
is_state cancelled cancelled = true
is_state completed completed = true
is_state _ _ = false

unfoldable pub wait_for_parts_to_finish : UploadContext → Turn (List Part)
wait_for_parts_to_finish c =
    if parts_missing c
    then (if is_state c.state cancelled then upload_cancelled else waiting)
    else ready (sort_parts c.parts)

unfoldable pub wait_for_upload_id : UploadContext → Turn (Option Str)
wait_for_upload_id c =
    if is_state c.state cancelled
    then upload_cancelled
    else elim (c.upload_id) [ none ↦ waiting | some i ↦ ready (some i) ]

unfoldable pub wait_for_completion : UploadContext → Turn (Unit {0})
wait_for_completion c =
    if is_state c.state completed
    then ready tt
    else if is_state c.state cancelled
    then upload_cancelled
    else waiting

-- cancel_upload: the upload id with which the canceller is called, if it is, and the new state
unfoldable pub cancel_upload : Bool → UploadContext → Option (Option Str) × UploadContext
cancel_upload has_canceller c = (
  if is_state c.state started && has_canceller then some c.upload_id else none,
  record c { state = cancelled },
)

abbrev pub in_progress : UploadContext → Bool
in_progress c = is_state c.state started

abbrev pub is_complete : UploadContext → Bool
is_complete c = is_state c.state completed

abbrev pub is_cancelled : UploadContext → Bool
is_cancelled c = is_state c.state cancelled

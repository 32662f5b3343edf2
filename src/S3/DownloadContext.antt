-- ===== src/S3/DownloadContext.antt =====
-- `MultipartDownloadContext` of awscli/customizations/s3/tasks.py, step by step as UploadContext.
use m_awsexp.Common.{ℕ, Bool, true, false, List, length, ◌∷◌, if◌then◌else◌, ◌==◌, ◌+◌, [], ◌||◌}

pub data DownloadState : Type 0 where
  unstarted started completed cancelled : DownloadState

-- `finished_parts` is a set: no number stands in it twice.
pub record DownloadContext : Type 0 where
  pub num_parts : ℕ
  pub state : DownloadState
  pub finished_parts : List ℕ
  pub current_stream_part_number : ℕ

abbrev pub init : ℕ → DownloadContext
init num_parts = record {
  num_parts = num_parts;
  state = unstarted;
  finished_parts = [];
  current_stream_part_number = 0;
}

-- part_number in self._finished_parts, and set.add
unfoldable pub member : ℕ → List ℕ → Bool
member n [] = false
member n (m ∷ ms) = n == m || member n ms

unfoldable pub add : ℕ → List ℕ → List ℕ
unfolding member
add n ms = if member n ms then ms else n ∷ ms

unfoldable pub announce_completed_part : ℕ → DownloadContext → DownloadContext
unfolding add
announce_completed_part part_number c =
    let finished = add part_number c.finished_parts in
    if length finished == c.num_parts
    then record c { finished_parts = finished; state = completed }
    else record c { finished_parts = finished }

unfoldable pub announce_file_created : DownloadContext → DownloadContext
announce_file_created c = record c { state = started }

pub data Turn : Type 0 where
  ready download_cancelled waiting : Turn

abbrev pub is_state : DownloadState → DownloadState → Bool
is_state unstarted unstarted = true
is_state started started = true
is_state completed completed = true
is_state cancelled cancelled = true
is_state _ _ = false

abbrev turn : Bool → DownloadContext → Turn
turn done c =
    if done then ready else if is_state c.state cancelled then download_cancelled else waiting

unfoldable pub wait_for_file_created : DownloadContext → Turn
wait_for_file_created c = turn (is_state c.state started) c

unfoldable pub wait_for_completion : DownloadContext → Turn
wait_for_completion c = turn (is_state c.state completed) c

unfoldable pub wait_for_turn : ℕ → DownloadContext → Turn
wait_for_turn part_number c = turn (c.current_stream_part_number == part_number) c

unfoldable pub done_with_turn : DownloadContext → DownloadContext
done_with_turn c = record c { current_stream_part_number = c.current_stream_part_number + 1 }

unfoldable pub cancel : DownloadContext → DownloadContext
cancel c = record c { state = cancelled }

abbrev pub is_cancelled : DownloadContext → Bool
is_cancelled c = is_state c.state cancelled

abbrev pub is_started : DownloadContext → Bool
is_started c = is_state c.state started

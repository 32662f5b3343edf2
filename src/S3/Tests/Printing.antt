-- ===== src/S3/Tests/Printing.antt =====
-- An example for the print thread: a part, a failed file and a warning.
use m_awsexp.S3.PrintThread.{PrintTask, run, init}
use m_awsexp.Common.{◌≡◌, [], List, false, true, codes, some, ◌∷◌, none}
use m_awsexp.S3.PrintThread.Counts.{count, run_quiet, run-counts}

abbrev print_tasks : List PrintTask
print_tasks =
    record { message = codes "upload: a"; error = false; total_parts = some 2; warning = false }
    ∷ record {
      message = codes "upload failed: b";
      error = true;
      total_parts = none;
      warning = false;
    }
    ∷ record { message = codes "warning: c"; error = false; total_parts = none; warning = true }
    ∷ []

run-counts_example :
    let t = (run (λ n. []) false false print_tasks init).0 in
    (t.num_errors_seen ≡ 1) × (t.num_warnings_seen ≡ 1) × (t.file_count ≡ 1)
unfolding count
run-counts_example = run-counts (λ n. []) false false print_tasks

run_quiet_example : (run (λ n. []) true false print_tasks init).1 ≡ []
run_quiet_example = run_quiet (λ n. []) false print_tasks init

-- ===== src/S3/PrintThread/Counts.antt =====
-- What the print thread has counted and written after any print tasks.
use m_awsexp.Common.{
  ℕ, ◌≡◌, Str, Option, Bool, true, ◌+◌, false, some, arith, List, not, ◌∷◌, none, ◌&&◌, [],
  Bool-cases, inl, inr, ◌||◌, Option-cases, refl,
}
use m_awsexp.S3.PrintThread.{
  PrintThread, PrintTask, report, classify, make_progress_bar, parts_given, count_error, run,
  process_print_task, is_done, init, has_key, operands,
}
use m_awsexp.Common.Int.{ℤ}

abbrev one_if : Bool → ℕ
one_if true = 1
one_if false = 0

-- The number of the tasks that pass the test.
unfoldable pub count : (PrintTask → Bool) → List PrintTask → ℕ
count test [] = 0
count test (t ∷ ts) = one_if (test t) + count test ts

abbrev is_none : Option ℕ → Bool
is_none none = true
is_none (some n) = false

-- The message of a whole file: no warning, and not of a part.
abbrev pub is_whole : PrintTask → Bool
is_whole t = not t.warning && is_none (parts_given t)

abbrev Counted : PrintThread → PrintThread → ℕ → ℕ → ℕ → Type 0
Counted t u errors warnings files =
    (u.num_errors_seen ≡ t.num_errors_seen + errors)
    × (u.num_warnings_seen ≡ t.num_warnings_seen + warnings)
    × (u.file_count ≡ t.file_count + files)

module _ (show : ℤ → Str) (quiet only_show_errors : Bool) where
  bar-Counted :
      (t : PrintThread) → Counted t (make_progress_bar show quiet only_show_errors t).0 0 0 0
  unfolding make_progress_bar
  bar-Counted t = (omega arith, omega arith, omega arith)

  report-Counted :
      (task : PrintTask) (t : PrintThread) (s : Str)
      → Counted t (report show quiet only_show_errors task (t, s)).0 0 0 0
  unfolding report
  report-Counted task t s = elim (Bool-cases (is_done t)) [
    | inl done ↦ elim (Bool-cases (quiet || only_show_errors)) [
      | inl y ↦ rw (report, done, y) (omega arith, omega arith, omega arith)
      | inr n ↦ rw (report, done, n) (omega arith, omega arith, omega arith)
    ]
    | inr going ↦ elim (Bool-cases (quiet || only_show_errors)) [
      | inl y ↦ rw (report, going, y) (bar-Counted t)
      | inr n ↦ rw (report, going, n) (bar-Counted t)
    ]
  ]

  classify-Counted :
      (task : PrintTask) (t : PrintThread)
      → Counted t (classify task t).0 0 (one_if task.warning) (one_if (is_whole task))
  unfolding classify
  classify-Counted task t = elim (Bool-cases task.warning) [
    | inl y ↦ rw (classify, y) (omega arith, omega arith, omega arith)
    | inr n ↦ elim (Option-cases (parts_given task)) [
      | inl whole ↦ elim (Bool-cases (has_key (operands task.message) t.progress_dict)) [
        | inl k ↦ rw (classify, n, whole, k) (omega arith, omega arith, omega arith)
        | inr k ↦ rw (classify, n, whole, k) (omega arith, omega arith, omega arith)
      ]
      | inr (total, part) ↦ rw (classify, n, part) (omega arith, omega arith, omega arith)
    ]
  ]

  count_error-Counted :
      (task : PrintTask) (t : PrintThread) → Counted t (count_error task t) (one_if task.error) 0 0
  count_error-Counted task t = elim (Bool-cases task.error) [
    | inl y ↦ rw y (omega arith, omega arith, omega arith)
    | inr n ↦ rw n (omega arith, omega arith, omega arith)
  ]

  step-Counted :
      (task : PrintTask) (t : PrintThread)
      → Counted t
          (process_print_task show quiet only_show_errors task t).0
          (one_if task.error)
          (one_if task.warning)
          (one_if (is_whole task))
  unfolding process_print_task
  step-Counted task t =
      let t₁ = count_error task t in
      let (t₂, s) = classify task t₁ in
      let (a, b, c) = count_error-Counted task t in
      let (d, e, f) = classify-Counted task t₁ in
      let (g, h, i) = report-Counted task (classify task t₁).0 (classify task t₁).1 in
      (omega (arith, a, d, g), omega (arith, b, e, h), omega (arith, c, f, i))

  run-Counted :
      (tasks : List PrintTask) (t : PrintThread)
      → Counted t
          (run show quiet only_show_errors tasks t).0
          (count (λ x. x.error) tasks)
          (count (λ x. x.warning) tasks)
          (count is_whole tasks)
  unfolding run count
  run-Counted [] t = (omega arith, omega arith, omega arith)
  run-Counted (task ∷ tasks) t =
      let (a, b, c) = step-Counted task t in
      let (d, e, f) = run-Counted tasks (process_print_task show quiet only_show_errors task t).0 in
      (omega (arith, a, d), omega (arith, b, e), omega (arith, c, f))

  -- From the start the thread counts as errors the tasks with an error, as warnings those with a
  -- warning, and as files those with neither a warning nor parts, whatever is printed.
  pub run-counts :
      (tasks : List PrintTask)
      → let t = (run show quiet only_show_errors tasks init).0 in
        (t.num_errors_seen ≡ count (λ x. x.error) tasks)
        × (t.num_warnings_seen ≡ count (λ x. x.warning) tasks)
        × (t.file_count ≡ count is_whole tasks)
  run-counts tasks =
      let (a, b, c) = run-Counted tasks init in
      (omega (arith, a), omega (arith, b), omega (arith, c))

report_quiet :
    (show : ℤ → Str) (only_show_errors : Bool) (task : PrintTask) (t : PrintThread) (s : Str)
    → (report show true only_show_errors task (t, s)).1 ≡ []
unfolding report
report_quiet show only_show_errors task t s = elim (Bool-cases (task.error || task.warning)) [
  | inl y ↦ rw (report, y) refl
  | inr n ↦ rw (report, n) refl
]

-- With `--quiet` nothing is written at all.
pub run_quiet :
    (show : ℤ → Str) (only_show_errors : Bool) (tasks : List PrintTask) (t : PrintThread)
    → (run show true only_show_errors tasks t).1 ≡ []
unfolding run process_print_task
run_quiet show only_show_errors [] t = refl
run_quiet show only_show_errors (task ∷ tasks) t =
    rw
      (report_quiet show only_show_errors task (classify task (count_error task t)).0
        (classify task (count_error task t)).1)
      (run_quiet show only_show_errors tasks
        (process_print_task show true only_show_errors task t).0)

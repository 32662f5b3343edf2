-- ===== src/S3/BasicTask/Retries.antt =====
-- The retries of `BasicTask.__call__`.
use native.Mathlib.Decide.{dec_le}
use m_awsexp.Common.{
  ℕ, ◌≡◌, Str, Bool, true, Option, suc, ◌≤◌, ◌≢◌, false, some, ◌<◌, none, arith, ◌+◌, not, refl,
  zero, ◌∙◌, sym, [], inl, ◌⊎◌, inr,
}
use m_awsexp.S3.BasicTask.{
  Attempt, queue_print_message, Outcome, execute_task, connection_error, md5_error, PrintTask,
  success, other_error, call,
}
use m_awsexp.S3.FileStat.{
  FileStat, Operation, list_objects, upload, download, copy, move, delete, make_bucket,
  remove_bucket, unnamed,
}

abbrev pub is_retried : Attempt → Bool
is_retried (connection_error e) = true
is_retried (md5_error e) = true
is_retried _ = false

abbrev pub is_success : Attempt → Bool
is_success success = true
is_success _ = false

module _ (relative_path : Str → Str) where
  -- A message is queued for every operation but the listing of objects.
  abbrev pub Queues : FileStat → Type 0
  Queues f =
      (failed dryrun : Bool) (e : Option Str)
      → (m : PrintTask) × (queue_print_message relative_path f failed dryrun e ≡ some m)
        × (m.error ≡ failed)

  queues : (f : FileStat) (o : Operation) → f.operation_name ≡ o → o ≢ list_objects → Queues f
  unfolding queue_print_message
  queues f upload h ne failed dryrun e = rw (queue_print_message, h) (_, refl, refl)
  queues f download h ne failed dryrun e = rw (queue_print_message, h) (_, refl, refl)
  queues f copy h ne failed dryrun e = rw (queue_print_message, h) (_, refl, refl)
  queues f move h ne failed dryrun e = rw (queue_print_message, h) (_, refl, refl)
  queues f delete h ne failed dryrun e = rw (queue_print_message, h) (_, refl, refl)
  queues f make_bucket h ne failed dryrun e = rw (queue_print_message, h) (_, refl, refl)
  queues f remove_bucket h ne failed dryrun e = rw (queue_print_message, h) (_, refl, refl)
  queues f list_objects h ne failed dryrun e = absurd (ne refl)
  queues f unnamed h ne failed dryrun e = rw (queue_print_message, h) (_, refl, refl)

  -- The last run of a task that makes at most `attempts` runs from `first` on.
  abbrev pub Ends : (ℕ → Attempt) → ℕ → ℕ → Outcome → Type 0
  Ends run attempts first o =
      (last : ℕ) × (o.runs ≡ suc last)
      × (first ≤ last)
      × (last < first + attempts)
      × ((k : ℕ) → first ≤ k → k < last → is_retried (run k) ≡ true)
      × ((is_retried (run last) ≡ false) ⊎ (suc last ≡ first + attempts))
      × (m : PrintTask) × (o.queued ≡ some m)
      × (m.error ≡ not (is_success (run last)))

  shift :
      (run : ℕ → Attempt) (attempts first : ℕ) (o : Outcome)
      → is_retried (run first) ≡ true
      → Ends run attempts (first + 1) o
      → Ends run (suc attempts) first o
  shift run attempts first o r (last, n, low, high, before, at_end, m, queued, error) = (
    last,
    n,
    omega (arith, low),
    omega (arith, high),
    λ k a b. elim (dec_le (first + 1) k) [
      | yes above ↦ before k above b
      | no below ↦ let same : first ≡ k = omega (arith, a, below) in rw (← same) r
    ],
    elim at_end [ inl ends ↦ inl ends | inr all ↦ inr (omega (arith, all)) ],
    m,
    queued,
    error,
  )

  -- A run after which the task ends.
  last_run :
      (f : FileStat) (run : ℕ → Attempt) (attempts first : ℕ) (failed : Bool) (e : Option Str)
      → Queues f
      → not (is_success (run first)) ≡ failed
      → (is_retried (run first) ≡ false) ⊎ (attempts ≡ 0)
      → Ends run
          (suc attempts)
          first
          (record { runs = first + 1; queued = queue_print_message relative_path f failed false e })
  last_run f run attempts first failed e q h only =
      let (m, k, r) = q failed false e in
      (
        first,
        omega arith,
        omega arith,
        omega arith,
        λ k a b. absurd (omega (arith, a, b)),
        elim only [ inl ends ↦ inl ends | inr none_left ↦ inr (omega (arith, none_left)) ],
        m,
        k,
        r ∙ sym h,
      )

  execute_task_lem :
      (f : FileStat) (run : ℕ → Attempt) (attempts first : ℕ) (e : Str) (a : Attempt)
      → Queues f
      → run first ≡ a
      → Ends run
          (suc attempts)
          first
          (execute_task relative_path f false run (suc attempts) first e)
  unfolding execute_task
  execute_task_lem f run attempts first e success q h =
      rw (execute_task, h)
        (last_run f run attempts first false none q (rw h refl) (rw h (inl refl)))
  execute_task_lem f run attempts first e (other_error t) q h =
      rw (execute_task, h)
        (last_run f run attempts first true (some t) q (rw h refl) (rw h (inl refl)))
  execute_task_lem f run zero first e (connection_error t) q h =
      rw (execute_task, h) (last_run f run 0 first true (some t) q (rw h refl) (inr refl))
  execute_task_lem f run (suc attempts) first e (connection_error t) q h =
      rw (execute_task, h)
        (shift run (suc attempts) first _ (rw h refl)
          (execute_task_lem f run attempts (first + 1) t (run (first + 1)) q refl))
  execute_task_lem f run zero first e (md5_error t) q h =
      rw (execute_task, h) (last_run f run 0 first true (some t) q (rw h refl) (inr refl))
  execute_task_lem f run (suc attempts) first e (md5_error t) q h =
      rw (execute_task, h)
        (shift run (suc attempts) first _ (rw h refl)
          (execute_task_lem f run attempts (first + 1) t (run (first + 1)) q refl))

  -- Outside a dry run, an operation but the listing of objects is run once to three times. Every run
  -- before the last ended by a connection or checksum error; if the last did too, it is the third.
  -- One message is queued, and it is an error exactly if the last run did not succeed.
  pub call-Ends :
      (f : FileStat) (run : ℕ → Attempt)
      → f.operation_name ≢ list_objects
      → Ends run 3 0 (call relative_path f false run)
  unfolding call
  call-Ends f run ne =
      execute_task_lem f run 2 0 [] (run 0) (queues f f.operation_name refl ne) refl

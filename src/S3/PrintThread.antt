-- ===== src/S3/PrintThread.antt =====
-- `PrintThread` of awscli/customizations/s3/executor.py: the counts by which a command's exit status
-- is chosen, and what is written where.
pub mod Counts
use m_awsexp.Common.{
  ℕ, Str, if◌then◌else◌, str_eq, Bool, some, Option, List, split, ◌++◌, [], join, none, suc,
  ends_with, false, ◌-◌, ◌+◌, ◌∷◌, codes, zero, ◌==◌, ◌||◌, length, ◌&&◌, not, true,
}
use m_awsexp.Common.Int.{ℤ, pos, sub_ℕ}

-- PrintTask of utils.py
pub record PrintTask : Type 0 where
  pub message : Str
  pub error : Bool
  pub total_parts : Option ℕ
  pub warning : Bool

-- An entry of `_progress_dict`.
pub record Progress : Type 0 where
  pub parts : ℕ
  pub total : ℕ

-- `total_parts` and `total_files` are `none` while they are not known, which the source writes as
-- '...'.
pub record PrintThread : Type 0 where
  pub progress_dict : List (Str × Progress)
  pub progress_length : ℕ
  pub num_parts : ℕ
  pub file_count : ℕ
  pub needs_newline : Bool
  pub total_parts : Option ℕ
  pub total_files : Option ℕ
  pub num_errors_seen : ℕ
  pub num_warnings_seen : ℕ

-- __init__
abbrev pub init : PrintThread
init = record {
  progress_dict = [];
  progress_length = 0;
  num_parts = 0;
  file_count = 0;
  needs_newline = false;
  total_parts = none;
  total_files = none;
  num_errors_seen = 0;
  num_warnings_seen = 0;
}

-- set_total_parts and set_total_files
abbrev pub set_total_parts : ℕ → PrintThread → PrintThread
set_total_parts n t = record t { total_parts = some n }

abbrev pub set_total_files : ℕ → PrintThread → PrintThread
set_total_files n t = record t { total_files = some n }

-- What is written, and whether it goes to standard error.
pub record Output : Type 0 where
  pub to_stderr : Bool
  pub text : Str

spaces : ℕ → Str
spaces zero = []
spaces (suc n) = b' ' ∷ spaces n

-- s.ljust(width, ' ')
unfoldable pub ljust : Str → ℕ → Str
unfolding spaces
ljust s width = s ++ spaces (width - length s)

abbrev rest_of : List Str → List Str
rest_of [] = []
rest_of (s ∷ ss) = ss

-- ':'.join(print_str.split(':')[1:])
unfoldable pub operands : Str → Str
unfolding split join
operands s = join b':' (rest_of (split b':' s))

unfoldable pub has_key : Str → List (Str × Progress) → Bool
unfolding str_eq
has_key k [] = false
has_key k ((l, p) ∷ ps) = str_eq k l || has_key k ps

-- _progress_dict[print_str]['parts'] += 1
unfoldable pub one_more_part : Str → List (Str × Progress) → List (Str × Progress)
unfolding str_eq
one_more_part k [] = []
one_more_part k ((l, p) ∷ ps) =
    let rest = one_more_part k ps in
    if str_eq k l then (l, record p { parts = p.parts + 1 }) ∷ ps else (l, p) ∷ rest

-- _progress_dict.pop(print_str, None)
unfoldable pub pop : Str → List (Str × Progress) → List (Str × Progress)
unfolding str_eq
pop k [] = []
pop k ((l, p) ∷ ps) = let rest = pop k ps in if str_eq k l then ps else (l, p) ∷ rest

-- `total_parts`, where None and 0 count as false
abbrev pub parts_given : PrintTask → Option ℕ
parts_given t = elim (t.total_parts) [ none ↦ none | some n ↦ if n == 0 then none else some n ]

-- The branches of _process_print_task: the new state, and final_str.
unfoldable pub classify : PrintTask → PrintThread → PrintThread × Str
unfolding ljust operands has_key one_more_part pop
classify task t =
    let line = ljust task.message t.progress_length ++ (b'\n' ∷ []) in
    let key = operands task.message in
    if task.warning
    then (record t { num_warnings_seen = t.num_warnings_seen + 1 }, line)
    else elim (parts_given task) [
      | some total ↦ (
        record t {
          num_parts = t.num_parts + 1;
          progress_dict =
              if has_key key t.progress_dict
              then one_more_part key t.progress_dict
              else (key, record { parts = 1; total = total }) ∷ t.progress_dict;
        },
        [],
      )
      | none ↦ (
        if has_key key t.progress_dict
            then record t {
              progress_dict = pop task.message t.progress_dict;
              file_count = t.file_count + 1;
            }
            else record t { num_parts = t.num_parts + 1; file_count = t.file_count + 1 },
        line,
      )
    ]

abbrev count_error : PrintTask → PrintThread → PrintThread
count_error task t = if task.error then record t { num_errors_seen = t.num_errors_seen + 1 } else t

-- self._total_files == self._file_count
abbrev is_done : PrintThread → Bool
is_done t = elim (t.total_files) [ none ↦ false | some n ↦ n == t.file_count ]

-- `show` is the decimal text of a number.
module _ (show : ℤ → Str) (quiet only_show_errors : Bool) where
  shown_total : Option ℕ → Str
  shown_total none = codes "..."
  shown_total (some n) = show (pos n)

  -- _make_progress_bar
  unfoldable pub make_progress_bar : PrintThread → PrintThread × Str
  unfolding shown_total ljust
  make_progress_bar t =
      let start = codes "Completed " ++ (show (pos t.num_parts) ++ codes " ") in
      let middle : Str = elim (t.total_files) [
        | none ↦ start ++ (codes "part(s) with " ++ codes "...")
        | some n ↦
            start
            ++ (codes "of "
                ++ (shown_total t.total_parts
                    ++ (codes " part(s) with " ++ show (sub_ℕ n t.file_count))))
      ] in
      let prog_str = middle ++ codes " file(s) remaining" in
      (
        record t { progress_length = length prog_str },
        ljust (prog_str ++ (b'\r' ∷ [])) t.progress_length,
      )

  -- The end of _process_print_task, from the first write on.
  unfoldable pub report : PrintTask → PrintThread × Str → PrintThread × List Output
  unfolding make_progress_bar ends_with
  report task (t, final_str) =
      let to_stderr = (task.error || task.warning) && not quiet in
      let errors = if to_stderr then record { to_stderr = true; text = final_str } ∷ [] else [] in
      let left = if to_stderr then [] else final_str in
      let (t', bar) = if is_done t then (t, []) else make_progress_bar t in
      let final = left ++ bar in
      if quiet || only_show_errors then (t', errors) else (
        record t' { needs_newline = not (ends_with final b'\n') },
        errors ++ (record { to_stderr = false; text = final } ∷ []),
      )

  -- _process_print_task
  unfoldable pub process_print_task : PrintTask → PrintThread → PrintThread × List Output
  unfolding classify report
  process_print_task task t = report task (classify task (count_error task t))

  -- The loop of run over the tasks that come before the request to shut down.
  unfoldable pub run : List PrintTask → PrintThread → PrintThread × List Output
  unfolding process_print_task
  run [] t = (t, [])
  run (task ∷ tasks) t =
      let (t', out) = process_print_task task t in
      let (t'', rest) = run tasks t' in (t'', out ++ rest)

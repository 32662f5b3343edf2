-- ===== src/S3/Run/Sync.antt =====
-- What a `sync` hands to its handler.

use m_awsexp.S3.Comparator
use m_awsexp.S3.Filter
use m_awsexp.Common.{
  List, if◌then◌else◌, All, ◌∷◌, if_both, true, [], str_lt, ◌≡◌, false, some, Bool, arith, ap, ◌∙◌,
  Option, none, refl, ℕ,
}
use m_awsexp.S3.Run.{
  ended, result_of, World, run, has_filters, wire, setup, filter_of, command_dict, call_components,
  call_each, generate, files_of, rev_files_of, listed, formatted, handling, yielded_by, generator,
  Flow, building, run_operation, status_of,
}
use m_awsexp.S3.Os.{Os}
use m_awsexp.S3.Filter.{Filter, status_after}
use m_awsexp.S3.Command.{
  CommandParameters, create_instructions, needs_filegenerator, sync, operation_name, filters,
  comparator, file_info_builder, s3_handler, Command,
}
use m_awsexp.S3.FileStat.{FileStat, Operation, unnamed}
use m_awsexp.S3.Comparator.Keys.{IsAscending}
use m_awsexp.S3.Path.{Files}

filter-All :
    (os : Os) (f : Filter) (P : FileStat → Type 0) (xs : List FileStat)
    → All P xs
    → All P (Filter.call os f xs)
unfolding Filter.call
filter-All os f P [] h = tt
filter-All os f P (x ∷ xs) (h, hs) =
    let rest = filter-All os f P xs hs in
    if_both (All P) (status_after os f.patterns f.dst_patterns x true) (h, rest) rest

-- A filter keeps the order.
filter-IsAscending :
    (os : Os) (f : Filter) (xs : List FileStat) → IsAscending xs → IsAscending (Filter.call os f xs)
unfolding Filter.call
filter-IsAscending os f [] h = tt
filter-IsAscending os f (x ∷ xs) (h, hs) =
    let rest = filter-IsAscending os f xs hs in
    if_both IsAscending (status_after os f.patterns f.dst_patterns x true)
      (filter-All os f (λ y. str_lt x.compare_key y.compare_key ≡ true) xs h, rest) rest

status_of-result_of : (r : Option (ℕ × ℕ)) → status_of (some (result_of r ∷ [])) ≡ ended r
status_of-result_of none = refl
status_of-result_of (some (failures, warnings)) = refl

-- The run ends as its handler does.
pub handled :
    (w : World) (handle : Flow → Option (ℕ × ℕ)) (x : Flow)
    → status_of (some (handling w handle (x ∷ []) ∷ [])) ≡ ended (handle x)
handled w handle x = status_of-result_of (handle x)

generator-some :
    (w : World) (o : Operation) (files : Files) (fs : List FileStat)
    → generate w o files ≡ some fs
    → generator w o (formatted files ∷ []) ≡ listed fs
generator-some w o files fs e = ground arith

both_listed :
    (w : World) (o : Operation) (files rev_files : Files) (src dest : List FileStat)
    → generate w o files ≡ some src
    → generate w unnamed rev_files ≡ some dest
    → (rest : Flow → Flow → Option (List Flow))
    → rest (generator w o (formatted files ∷ [])) (generator w unnamed (formatted rev_files ∷ []))
      ≡ rest (listed src) (listed dest)
both_listed w o files rev_files src dest e g rest =
    rw (generator-some w o files src e, generator-some w unnamed rev_files dest g)

built :
    (w : World) (st : Comparator.Stream)
    → st.ending ≡ Comparator.finished
    → building w (yielded_by w st ∷ []) ≡ listed st.yielded
built w st e = ground arith

-- The components of a sync, called one after the other.
wire_sync :
    (w : World) (o : Operation) (f : Filter) (rules : Bool) (files rev_files : Files)
    (src dest : List FileStat)
    → generate w o files ≡ some src
    → generate w unnamed rev_files ≡ some dest
    → let st =
        Comparator.call w.strategies
          (if rules then Filter.call w.os f src else src)
          (if rules then Filter.call w.os f dest else dest) in
      st.ending ≡ Comparator.finished
      → wire
          (command_dict w sync false o f)
          (create_instructions sync false rules)
          (formatted files ∷ formatted rev_files ∷ [])
        ≡ some (handling w w.enqueue (listed st.yielded ∷ []) ∷ [])
unfolding wire create_instructions command_dict call_components call_each needs_filegenerator
wire_sync w o f true files rev_files src dest e g h =
    both_listed w o files rev_files src dest e g (λ a b.
      wire (command_dict w sync false o f)
        (filters ∷ comparator ∷ file_info_builder ∷ s3_handler ∷ []) (a ∷ b ∷ []))
    ∙ ap (λ x. some (handling w w.enqueue (x ∷ []) ∷ [])) (built w _ h)
wire_sync w o f false files rev_files src dest e g h =
    both_listed w o files rev_files src dest e g (λ a b.
      wire (command_dict w sync false o f) (comparator ∷ file_info_builder ∷ s3_handler ∷ [])
        (a ∷ b ∷ []))
    ∙ ap (λ x. some (handling w w.enqueue (x ∷ []) ∷ [])) (built w _ h)

module _ (w : World) (p : CommandParameters) (patterns : List Filter.Pattern) where
  -- The files of one side that the rules let through.
  abbrev pub filtered : List FileStat → List FileStat
  filtered fs =
      if has_filters w p patterns then Filter.call w.os (filter_of w p patterns) fs else fs

  pub filtered-IsAscending : (fs : List FileStat) → IsAscending fs → IsAscending (filtered fs)
  filtered-IsAscending fs h =
      if_both IsAscending (has_filters w p patterns)
        (filter-IsAscending w.os (filter_of w p patterns) fs h) h

  pub run_operation_sync :
      (o : Operation) (src dest : List FileStat)
      → generate w o (files_of w p patterns) ≡ some src
      → generate w unnamed (rev_files_of w p patterns) ≡ some dest
      → let st = Comparator.call w.strategies (filtered src) (filtered dest) in
        st.ending ≡ Comparator.finished
        → run_operation w p patterns sync false o ≡ ended (w.enqueue (listed st.yielded))
  unfolding run_operation setup
  run_operation_sync o src dest e f h =
      ap status_of (
        wire_sync w o (filter_of w p patterns) (has_filters w p patterns) (files_of w p patterns)
          (rev_files_of w p patterns) src dest e f h)
      ∙ handled w w.enqueue _

  pub run_by_operation :
      (cmd : Command) (is_stream : Bool) (o : Operation)
      → p.cmd ≡ cmd
      → p.is_stream ≡ is_stream
      → operation_name p.paths_type cmd ≡ some o
      → run w p patterns ≡ run_operation w p patterns cmd is_stream o
  unfolding run
  run_by_operation cmd is_stream o e f g =
      let named : operation_name p.paths_type p.cmd ≡ some o = rw e g in rw (run, named, ← e, ← f)

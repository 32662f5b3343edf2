-- ===== src/S3/Strategy/Choice.antt =====
-- The strategies that a command ends up with, and where each can stand without raising.
use mathlib.Core.List.{map}
use m_awsexp.Common.{◌≡◌, ◌≢◌, Bool, Option, none, some, List, arith, Str, codes, if◌then◌else◌}
use m_awsexp.S3.FileStat.{FileStat}
use m_awsexp.S3.Strategy.{
  size_and_last_modified_sync, never_sync, missing_file_sync, size_only_sync, exact_timestamps_sync,
  delete_sync, Strategy, SyncStrategies, determine_should_sync, use_sync_strategy,
  registered_strategies, choose_sync_strategies,
}

-- The strategies never raise where the comparator calls them.
pub record NeverRaises (sts : SyncStrategies) : Type 0 where
  pub at_src_and_dest :
      (f g : FileStat) → determine_should_sync sts.at_src_and_dest (some f) (some g) ≢ none
  pub not_at_dest : (f : FileStat) → determine_should_sync sts.not_at_dest (some f) none ≢ none
  pub not_at_src : (g : FileStat) → determine_should_sync sts.not_at_src none (some g) ≢ none

-- The responses of handlers that are called in the order of their registration.
abbrev pub responses_for : (Str → Bool) → List (Option Strategy)
responses_for params = map (λ s. use_sync_strategy s params) registered_strategies

abbrev pub chosen_for : Bool → Bool → Bool → SyncStrategies
chosen_for size_only exact delete = record {
  at_src_and_dest =
      if exact
      then exact_timestamps_sync
      else if size_only
      then size_only_sync
      else size_and_last_modified_sync;
  not_at_dest = missing_file_sync;
  not_at_src = if delete then delete_sync else never_sync;
}

-- `--exact-timestamps` overrides `--size-only`, which overrides the default; `--delete` is read
-- apart from both, and nothing else changes.
pub choose_sync_strategies_lem :
    (params : Str → Bool)
    → choose_sync_strategies (responses_for params)
      ≡ chosen_for
          (params (codes "size_only"))
          (params (codes "exact_timestamps"))
          (params (codes "delete"))
unfolding choose_sync_strategies registered_strategies use_sync_strategy
choose_sync_strategies_lem params = ground arith

chosen_for-NeverRaises : (s e d : Bool) → NeverRaises (chosen_for s e d)
unfolding determine_should_sync
chosen_for-NeverRaises s e d = record {
  at_src_and_dest = λ f g p. ground arith;
  not_at_dest = λ f p. ground arith;
  not_at_src = λ g p. ground arith;
}

-- Whatever the flags, the chosen strategies never raise where the comparator calls them.
pub choose_sync_strategies-NeverRaises :
    (params : Str → Bool) → NeverRaises (choose_sync_strategies (responses_for params))
choose_sync_strategies-NeverRaises params =
    let s = params (codes "size_only") in
    let e = params (codes "exact_timestamps") in
    let d = params (codes "delete") in
    record {
      at_src_and_dest =
          rw choose_sync_strategies_lem (chosen_for-NeverRaises s e d).at_src_and_dest;
      not_at_dest = rw choose_sync_strategies_lem (chosen_for-NeverRaises s e d).not_at_dest;
      not_at_src = rw choose_sync_strategies_lem (chosen_for-NeverRaises s e d).not_at_src;
    }

-- ===== src/S3/Strategy.antt =====
-- awscli/customizations/s3/syncstrategy: base.py, sizeonly.py, exacttimestamps.py, delete.py,
-- register.py, and `choose_sync_strategies` of awscli/customizations/s3/subcommands.py.
pub mod Decisions
pub mod Choice
use mathlib.Core.List.{map}
use m_awsexp.Common.{
  ℕ, ◌≡◌, Bool, true, false, not, ◌&&◌, ◌||◌, Option, none, some, List, [], ◌∷◌, ◌++◌, arith, ◌==◌,
  leb, if◌then◌else◌, Str, codes, replace,
}
use m_awsexp.Common.Int.{ℤ, pos, negsuc}
use m_awsexp.S3.DateTime.{sub_datetime, total_seconds}
use m_awsexp.S3.FileStat.{FileStat, Operation, upload, copy, download, delete}

-- VALID_SYNC_TYPES
pub data SyncType : Type 0 where
  file_at_src_and_dest file_not_at_dest file_not_at_src : SyncType

-- `BaseSync` and its subclasses
pub data StrategyClass : Type 0 where
  base_sync size_and_last_modified_sync never_sync missing_file_sync : StrategyClass
  size_only_sync exact_timestamps_sync delete_sync : StrategyClass

pub record Strategy : Type 0 where
  pub strategy_class : StrategyClass
  pub sync_type : SyncType

-- compare_size
unfoldable pub compare_size : FileStat → FileStat → Bool
compare_size src_file dest_file = src_file.size == dest_file.size

abbrev at_least_zero : ℤ → Bool
at_least_zero (pos n) = true
at_least_zero (negsuc n) = false

abbrev at_most_zero : ℤ → Bool
at_most_zero (pos n) = n == 0
at_most_zero (negsuc n) = true

abbrev is_zero : ℤ → Bool
is_zero (pos n) = n == 0
is_zero (negsuc n) = false

-- BaseSync.compare_time; `none` is the `None` that falls out of its last branch
unfoldable pub compare_time : FileStat → FileStat → Option Bool
compare_time src_file dest_file =
    let delta = total_seconds (sub_datetime dest_file.last_update src_file.last_update) in
    elim (src_file.operation_name) [
      | Operation.upload ↦ some (at_least_zero delta)
      | Operation.copy ↦ some (at_least_zero delta)
      | Operation.download ↦ some (at_most_zero delta)
      | _ ↦ none
    ]

-- ExactTimestampsSync.compare_time
unfoldable pub compare_time_exact : FileStat → FileStat → Option Bool
compare_time_exact src_file dest_file =
    let delta = total_seconds (sub_datetime dest_file.last_update src_file.last_update) in
    let other = compare_time src_file dest_file in
    elim (src_file.operation_name) [ Operation.download ↦ some (is_zero delta) | _ ↦ other ]

-- `not value` on a value that may be `None`
abbrev pub falsy : Option Bool → Bool
falsy none = true
falsy (some b) = not b

-- What `determine_should_sync` returns, and the file at the destination as it leaves it.
pub record Verdict : Type 0 where
  pub should_sync : Bool
  pub dest_file : Option FileStat

abbrev verdict : Bool → Option FileStat → Option Verdict
verdict b dest = some (record { should_sync = b; dest_file = dest })

-- DeleteSync.determine_should_sync names the operation of the file that it is given.
abbrev pub mark_delete : FileStat → FileStat
mark_delete f = record f { operation_name = delete }

-- `determine_should_sync` of each class; `none` is the exception that it raises: the
-- NotImplementedError of the base class, or an attribute of `None`.
unfoldable pub determine_should_sync :
    StrategyClass → Option FileStat → Option FileStat → Option Verdict
unfolding compare_size
determine_should_sync size_and_last_modified_sync (some f) (some g) =
    verdict (not (compare_size f g) || falsy (compare_time f g)) (some g)
determine_should_sync size_only_sync (some f) (some g) = verdict (not (compare_size f g)) (some g)
determine_should_sync exact_timestamps_sync (some f) (some g) =
    verdict (not (compare_size f g) || falsy (compare_time_exact f g)) (some g)
determine_should_sync delete_sync src (some g) = verdict true (some (mark_delete g))
determine_should_sync never_sync src dest = verdict false dest
determine_should_sync missing_file_sync (some f) dest = verdict true dest
determine_should_sync _ _ _ = none

-- The name in ARGUMENT; no class of the source gives a `dest` there.
unfoldable pub arg_name : StrategyClass → Option Str
arg_name size_only_sync = some (codes "size-only")
arg_name exact_timestamps_sync = some (codes "exact-timestamps")
arg_name delete_sync = some (codes "delete")
arg_name _ = none

-- add_sync_argument
unfoldable pub add_sync_argument : Strategy → List Str → List Str
unfolding arg_name
add_sync_argument s arg_table = elim (arg_name s.strategy_class) [
  | none ↦ arg_table
  | some a ↦ arg_table ++ (a ∷ [])
]

-- use_sync_strategy, with `params.get` as the function `params`
unfoldable pub use_sync_strategy : Strategy → (Str → Bool) → Option Strategy
unfolding arg_name replace
use_sync_strategy s params = elim (arg_name s.strategy_class) [
  | none ↦ none
  | some name ↦ if params (replace name b'-' b'_') then some s else none
]

-- register_sync_strategies
unfoldable pub registered_strategies : List Strategy
registered_strategies =
    record { strategy_class = size_only_sync; sync_type = file_at_src_and_dest }
    ∷ record { strategy_class = exact_timestamps_sync; sync_type = file_at_src_and_dest }
    ∷ record { strategy_class = delete_sync; sync_type = file_not_at_src }
    ∷ []

-- The dictionary of choose_sync_strategies, which has the keyword arguments of `Comparator`.
pub record SyncStrategies : Type 0 where
  pub at_src_and_dest : StrategyClass
  pub not_at_dest : StrategyClass
  pub not_at_src : StrategyClass

unfoldable pub default_strategies : SyncStrategies
default_strategies = record {
  at_src_and_dest = size_and_last_modified_sync;
  not_at_dest = missing_file_sync;
  not_at_src = never_sync;
}

override : SyncStrategies → Strategy → SyncStrategies
override sts s = elim (s.sync_type) [
  | file_at_src_and_dest ↦ record sts { at_src_and_dest = s.strategy_class }
  | file_not_at_dest ↦ record sts { not_at_dest = s.strategy_class }
  | file_not_at_src ↦ record sts { not_at_src = s.strategy_class }
]

-- The loop over the responses that the session's `emit` gives.
override_all : SyncStrategies → List (Option Strategy) → SyncStrategies
override_all sts [] = sts
override_all sts (none ∷ responses) = override_all sts responses
override_all sts (some s ∷ responses) = override_all (override sts s) responses

-- choose_sync_strategies
unfoldable pub choose_sync_strategies : List (Option Strategy) → SyncStrategies
unfolding override_all override default_strategies
choose_sync_strategies responses = override_all default_strategies responses

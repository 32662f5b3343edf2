-- ===== src/S3/Comparator.antt =====
-- awscli/customizations/s3/comparator.py: the loop of `sync` over two sorted listings.
pub mod Merge
pub mod Loop
pub mod Keys
pub mod Join
pub mod Correct
pub mod Order
use m_awsexp.Common.{
  ℕ, zero, suc, ◌+◌, Bool, true, false, not, ◌&&◌, Option, none, some, List, [], ◌∷◌, if◌then◌else◌,
  length, str_eq, str_lt,
}
use m_awsexp.S3.FileStat.{FileStat}
use m_awsexp.S3.Strategy.{SyncStrategies, Verdict, determine_should_sync}

-- The variables of `call` that stand for one side: what its iterator still holds, `src_file`,
-- `src_done` and `src_take`.
pub record Side : Type 0 where
  pub files : List FileStat
  pub file : Option FileStat
  pub done : Bool
  pub take_next : Bool

abbrev pub fresh : List FileStat → Side
fresh files = record { files = files; file = none; done = false; take_next = true }

next_file : List FileStat → Side → Side
next_file [] s = record s { file = none; done = true }
next_file (f ∷ fs) s = record s { files = fs; file = some f }

-- `advance_iterator` under its test, and the handler of StopIteration
unfoldable pub advance : Side → Side
unfolding next_file
advance s = if not s.done && s.take_next then next_file s.files s else s

pub data KeyOrder : Type 0 where
  equal less_than greater_than : KeyOrder

-- compare_comp_key
unfoldable pub compare_comp_key : FileStat → FileStat → KeyOrder
compare_comp_key src_file dest_file =
    if str_eq src_file.compare_key dest_file.compare_key
    then equal
    else if str_lt src_file.compare_key dest_file.compare_key
    then less_than
    else greater_than

-- One round ends the loop, raises, or yields at most one file and goes on.
pub data Round : Type 0 where
  stop raised : Round
  next : Option FileStat → Side → Side → Round

-- `if should_sync: yield …`, for the file at the source and for the one at the destination
yield_src : Option Verdict → FileStat → Side → Side → Round
yield_src none f s d = raised
yield_src (some v) f s d = next (if v.should_sync then some f else none) s d

yield_dest : Option Verdict → Side → Side → Round
yield_dest none s d = raised
yield_dest (some v) s d = next (if v.should_sync then v.dest_file else none) s d

abbrev taking : Bool → Side → Side
taking b s = record s { take_next = b }

module _ (sts : SyncStrategies) where
  -- neither side is done
  both_sides : Option FileStat → Option FileStat → Side → Side → Round
  unfolding yield_src yield_dest
  both_sides (some f) (some g) s d = elim (compare_comp_key f g) [
    | equal ↦
        yield_src (determine_should_sync sts.at_src_and_dest (some f) (some g)) f (taking true s)
          (taking true d)
    | less_than ↦
        yield_src (determine_should_sync sts.not_at_dest (some f) none) f (taking true s)
          (taking false d)
    | greater_than ↦
        yield_dest (determine_should_sync sts.not_at_src none (some g)) (taking false s)
          (taking true d)
  ]
  both_sides _ _ s d = raised

  src_only : Option FileStat → Side → Side → Round
  unfolding yield_src
  src_only (some f) s d =
      yield_src (determine_should_sync sts.not_at_dest (some f) none) f (taking true s) d
  src_only none s d = raised

  dest_only : Option FileStat → Side → Side → Round
  unfolding yield_dest
  dest_only g s d = yield_dest (determine_should_sync sts.not_at_src none g) s (taking true d)

  decide_round : Bool → Bool → Side → Side → Round
  unfolding both_sides src_only dest_only
  decide_round false false s d = both_sides s.file d.file s d
  decide_round false true s d = src_only s.file s d
  decide_round true false s d = dest_only d.file s d
  decide_round true true s d = stop

  -- the body of `while True`
  round : Side → Side → Round
  unfolding decide_round
  round s d = let s' = advance s in let d' = advance d in decide_round s'.done d'.done s' d'

-- How the generator ended, and what it yielded before.
pub data Ending : Type 0 where
  finished exception out_of_fuel : Ending

pub record Stream : Type 0 where
  pub yielded : List FileStat
  pub ending : Ending

abbrev pub ended : Ending → Stream
ended e = record { yielded = []; ending = e }

abbrev pub yield : Option FileStat → Stream → Stream
yield none s = s
yield (some f) s = record s { yielded = f ∷ s.yielded }

-- What becomes of a round, with the rounds that come after it.
abbrev pub follow : (Side → Side → Stream) → Round → Stream
follow rest stop = ended finished
follow rest raised = ended exception
follow rest (next file s d) = yield file (rest s d)

module _ (sts : SyncStrategies) where
  loop : ℕ → Side → Side → Stream
  loop zero s d = ended out_of_fuel
  loop (suc fuel) s d = follow (loop fuel) (round sts s d)

  -- `Comparator.call`. Each round but the last takes a file from a side.
  unfoldable pub call : List FileStat → List FileStat → Stream
  unfolding loop round
  call src_files dest_files =
      loop (length src_files + length dest_files + 1) (fresh src_files) (fresh dest_files)

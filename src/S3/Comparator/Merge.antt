-- ===== src/S3/Comparator/Merge.antt =====
-- The merge of two listings that the loop carries out, as a recursion on both.
use m_awsexp.Common.{Option, none, some, List, [], ◌∷◌, if◌then◌else◌, ◌≡◌, arith}
use m_awsexp.S3.FileStat.{FileStat}
use m_awsexp.S3.Strategy.{SyncStrategies, Verdict, determine_should_sync}
use m_awsexp.S3.Comparator.{
  equal, less_than, greater_than, compare_comp_key, finished, exception, Stream, ended, yield,
  KeyOrder,
}

abbrev pub then_src : Option Verdict → FileStat → Stream → Stream
then_src none f rest = ended exception
then_src (some v) f rest = yield (if v.should_sync then some f else none) rest

abbrev pub then_dest : Option Verdict → Stream → Stream
then_dest none rest = ended exception
then_dest (some v) rest = yield (if v.should_sync then v.dest_file else none) rest

module _ (sts : SyncStrategies) where
  abbrev pub both_verdict : FileStat → FileStat → Option Verdict
  both_verdict f g = determine_should_sync sts.at_src_and_dest (some f) (some g)

  abbrev pub src_verdict : FileStat → Option Verdict
  src_verdict f = determine_should_sync sts.not_at_dest (some f) none

  abbrev pub dest_verdict : FileStat → Option Verdict
  dest_verdict g = determine_should_sync sts.not_at_src none (some g)

  unfoldable pub merge : List FileStat → List FileStat → Stream
  merge [] [] = ended finished
  merge (f ∷ fs) [] = then_src (src_verdict f) f (merge fs [])
  merge [] (g ∷ gs) = then_dest (dest_verdict g) (merge [] gs)
  merge (f ∷ fs) (g ∷ gs) = elim (compare_comp_key f g) [
    | equal ↦ then_src (both_verdict f g) f (merge fs gs)
    | less_than ↦ then_src (src_verdict f) f (merge fs (g ∷ gs))
    | greater_than ↦ then_dest (dest_verdict g) (merge (f ∷ fs) gs)
  ]

  -- One step of the merge, by the order of the two first keys.
  abbrev pub Step : KeyOrder → FileStat → FileStat → List FileStat → List FileStat → Stream
  Step equal f g fs gs = then_src (both_verdict f g) f (merge fs gs)
  Step less_than f g fs gs = then_src (src_verdict f) f (merge fs (g ∷ gs))
  Step greater_than f g fs gs = then_dest (dest_verdict g) (merge (f ∷ fs) gs)

  pub merge-step :
      (f g : FileStat) (fs gs : List FileStat)
      → merge (f ∷ fs) (g ∷ gs) ≡ Step (compare_comp_key f g) f g fs gs
  unfolding merge
  merge-step f g fs gs = ground arith

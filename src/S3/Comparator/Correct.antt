-- ===== src/S3/Comparator/Correct.antt =====
-- `Comparator.call` carries out the join of its two listings.
use mathlib.Core.List.{Perm, append_assoc}
use mathlib.Core.List.Perm
use m_awsexp.Common.{List, Option, ◌∷◌, ◌≡◌, ◌≢◌, arith, none, [], refl, ◌++◌}
use m_awsexp.S3.Strategy.{SyncStrategies, Verdict}
use m_awsexp.S3.Strategy.Choice.{NeverRaises}
use m_awsexp.S3.Comparator.Merge.{
  merge, then_src, src_verdict, then_dest, dest_verdict, merge-step, Step,
}
use m_awsexp.S3.FileStat.{FileStat}
use m_awsexp.S3.Comparator.{
  KeyOrder, Stream, call, compare_comp_key, finished, equal, less_than, greater_than,
}
use m_awsexp.S3.Comparator.Join.{
  all_from_src, joined, all_from_dest, joined_equal, joined_less, kept_src, kept_dest,
  joined_greater,
}
use m_awsexp.S3.Comparator.Keys.{
  IsAscending, Orders, Above, find_key, compare_comp_key-Orders, Above-trans,
}
use m_awsexp.S3.Comparator.Loop.{call-eq-merge}

module _ {sts : SyncStrategies} (safe : NeverRaises sts) where
  yielded-then_src :
      (v : Option Verdict) (f : FileStat) (rest : Stream)
      → v ≢ none
      → (then_src v f rest).yielded ≡ kept_src v f ++ rest.yielded
  yielded-then_src v f rest h = ground arith

  yielded-then_dest :
      (v : Option Verdict) (rest : Stream)
      → v ≢ none
      → (then_dest v rest).yielded ≡ kept_dest v ++ rest.yielded
  yielded-then_dest v rest h = ground arith

  merge-finished : (fs gs : List FileStat) → (merge sts fs gs).ending ≡ finished
  unfolding merge
  merge-finished [] [] = refl
  merge-finished (f ∷ fs) [] = ground (arith, safe.not_at_dest f, merge-finished fs [])
  merge-finished [] (g ∷ gs) = ground (arith, safe.not_at_src g, merge-finished [] gs)
  merge-finished (f ∷ fs) (g ∷ gs) = ground (
    arith,
    safe.not_at_dest f,
    safe.not_at_src g,
    safe.at_src_and_dest f g,
    merge-finished fs gs,
    merge-finished fs (g ∷ gs),
    merge-finished (f ∷ fs) gs,
  )

  abbrev MergesTo : List FileStat → List FileStat → Type 0
  MergesTo fs gs = Perm (merge sts fs gs).yielded (joined sts fs gs)

  merge_src_only : (fs : List FileStat) → MergesTo fs []
  unfolding merge all_from_src all_from_dest find_key
  merge_src_only [] = Perm.refl []
  merge_src_only (f ∷ fs) =
      rw (yielded-then_src (src_verdict sts f) f _ (safe.not_at_dest f), append_assoc)
        (Perm.append_left _ (merge_src_only fs))

  merge_dest_only : (gs : List FileStat) → MergesTo [] gs
  unfolding merge all_from_src all_from_dest find_key
  merge_dest_only [] = Perm.refl []
  merge_dest_only (g ∷ gs) =
      rw (yielded-then_dest (dest_verdict sts g) _ (safe.not_at_src g))
        (Perm.append_left _ (merge_dest_only gs))

  step-perm :
      (c : KeyOrder) (f g : FileStat) (fs gs : List FileStat)
      → Orders c f.compare_key g.compare_key
      → Above f.compare_key fs
      → Above g.compare_key gs
      → MergesTo fs gs
      → MergesTo fs (g ∷ gs)
      → MergesTo (f ∷ fs) gs
      → Perm (Step sts c f g fs gs).yielded (joined sts (f ∷ fs) (g ∷ gs))
  step-perm equal f g fs gs o af ag both src dest =
      rw
        (
          yielded-then_src _ f (merge sts fs gs) (safe.at_src_and_dest f g),
          joined_equal sts f g fs gs o af ag,
        )
        (Perm.append_left _ both)
  step-perm less_than f g fs gs o af ag both src dest =
      rw
        (
          yielded-then_src _ f (merge sts fs (g ∷ gs)) (safe.not_at_dest f),
          joined_less sts f g fs gs (o, Above-trans _ _ gs o ag),
        )
        (Perm.append_left _ src)
  step-perm greater_than f g fs gs o af ag both src dest =
      rw (yielded-then_dest _ (merge sts (f ∷ fs) gs) (safe.not_at_src g)) (
        Perm.trans (Perm.append_left _ dest)
          (Perm.symm (joined_greater sts f g fs gs (o, Above-trans _ _ fs o af))))

  merge-perm-joined : (fs gs : List FileStat) → IsAscending fs → IsAscending gs → MergesTo fs gs
  merge-perm-joined [] gs af ag = merge_dest_only gs
  merge-perm-joined (f ∷ fs) [] af ag = merge_src_only (f ∷ fs)
  merge-perm-joined (f ∷ fs) (g ∷ gs) (af, as') (ag, bs') = rw (merge-step sts f g fs gs) (
      step-perm (compare_comp_key f g) f g fs gs (compare_comp_key-Orders f g) af ag
        (merge-perm-joined fs gs as' bs') (merge-perm-joined fs (g ∷ gs) as' (ag, bs'))
        (merge-perm-joined (f ∷ fs) gs (af, as') bs'))

  -- On two ascending listings, with strategies that do not raise, `Comparator.call` comes to its
  -- end and yields, up to their order, exactly the files that the join by key asks for: each
  -- source file as its strategy decides against the destination file with its key or against
  -- none, and each destination file with no source file of its key as its strategy decides.
  pub call-perm-joined :
      (src_files dest_files : List FileStat)
      → IsAscending src_files
      → IsAscending dest_files
      → ((call sts src_files dest_files).ending ≡ finished)
        × Perm (call sts src_files dest_files).yielded (joined sts src_files dest_files)
  call-perm-joined src dest as' bs' =
      rw (call-eq-merge sts src dest) (merge-finished src dest, merge-perm-joined src dest as' bs')

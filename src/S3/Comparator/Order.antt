-- ===== src/S3/Comparator/Order.antt =====
-- The files that `Comparator.call` yields come in the order of their keys.
use m_awsexp.Common.{List, [], Str, Option, Bool, ◌∷◌, str_lt, ◌≡◌, some, true, arith, none}
use m_awsexp.S3.Strategy.{SyncStrategies, determine_should_sync, Verdict}
use m_awsexp.S3.Comparator.Merge.{
  merge, dest_verdict, then_src, then_dest, both_verdict, src_verdict, merge-step, Step,
}
use m_awsexp.S3.FileStat.{FileStat}
use m_awsexp.S3.Comparator.Keys.{Above, IsAscending, compare_comp_key-Orders, Orders, Above-trans}
use m_awsexp.S3.Comparator.{
  Stream, compare_comp_key, equal, less_than, greater_than, KeyOrder, call,
}
use m_awsexp.S3.Comparator.Loop.{call-eq-merge}

-- A verdict leaves the compare key of the file at the destination as it was.
dest_verdict-key :
    (sts : SyncStrategies) (g h : FileStat) (b : Bool)
    → dest_verdict sts g ≡ some (record { should_sync = b; dest_file = some h })
    → h.compare_key ≡ g.compare_key
unfolding determine_should_sync
dest_verdict-key sts g h b e = ground arith

Above-then_src :
    (k : Str) (v : Option Verdict) (f : FileStat) (rest : Stream)
    → str_lt k f.compare_key ≡ true
    → Above k rest.yielded
    → Above k (then_src v f rest).yielded
Above-then_src k none f rest h a = tt
Above-then_src k (some v) f rest h a = ground arith

Above-then_dest :
    (k : Str) (sts : SyncStrategies) (g : FileStat) (rest : Stream)
    → str_lt k g.compare_key ≡ true
    → Above k rest.yielded
    → Above k (then_dest (dest_verdict sts g) rest).yielded
unfolding determine_should_sync
Above-then_dest k sts g rest h a = ground arith

module _ (sts : SyncStrategies) (k : Str) where
  merge-Above :
      (fs gs : List FileStat) → Above k fs → Above k gs → Above k (merge sts fs gs).yielded
  unfolding merge
  merge-Above [] [] a b = tt
  merge-Above (f ∷ fs) [] (h, a) b = Above-then_src k _ f _ h (merge-Above fs [] a b)
  merge-Above [] (g ∷ gs) a (h, b) = Above-then_dest k sts g _ h (merge-Above [] gs a b)
  merge-Above (f ∷ fs) (g ∷ gs) (h, a) (i, b) =
      elim (compare_comp_key f g)
        as (λ c.
          Above k
            (elim c as (λ _. Stream) [
              | equal ↦ then_src (both_verdict sts f g) f (merge sts fs gs)
              | less_than ↦ then_src (src_verdict sts f) f (merge sts fs (g ∷ gs))
              | greater_than ↦ then_dest (dest_verdict sts g) (merge sts (f ∷ fs) gs)
            ]).yielded) [
              | equal ↦ Above-then_src k _ f _ h (merge-Above fs gs a b)
              | less_than ↦ Above-then_src k _ f _ h (merge-Above fs (g ∷ gs) a (i, b))
              | greater_than ↦ Above-then_dest k sts g _ i (merge-Above (f ∷ fs) gs (h, a) b)
            ]

IsAscending-then_src :
    (v : Option Verdict) (f : FileStat) (rest : Stream)
    → Above f.compare_key rest.yielded
    → IsAscending rest.yielded
    → IsAscending (then_src v f rest).yielded
IsAscending-then_src none f rest a s = tt
IsAscending-then_src (some v) f rest a s = ground arith

IsAscending-then_dest :
    (sts : SyncStrategies) (g : FileStat) (rest : Stream)
    → Above g.compare_key rest.yielded
    → IsAscending rest.yielded
    → IsAscending (then_dest (dest_verdict sts g) rest).yielded
unfolding determine_should_sync
IsAscending-then_dest sts g rest a s = ground arith

module _ (sts : SyncStrategies) where
  step-IsAscending :
      (c : KeyOrder) (f g : FileStat) (fs gs : List FileStat)
      → Orders c f.compare_key g.compare_key
      → Above f.compare_key fs
      → Above g.compare_key gs
      → IsAscending (merge sts fs gs).yielded
      → IsAscending (merge sts fs (g ∷ gs)).yielded
      → IsAscending (merge sts (f ∷ fs) gs).yielded
      → IsAscending (Step sts c f g fs gs).yielded
  step-IsAscending equal f g fs gs o a b both src dest =
      IsAscending-then_src _ f _ (merge-Above sts _ fs gs a (rw o b)) both
  step-IsAscending less_than f g fs gs o a b both src dest =
      IsAscending-then_src _ f _ (merge-Above sts _ fs (g ∷ gs) a (o, Above-trans _ _ gs o b)) src
  step-IsAscending greater_than f g fs gs o a b both src dest =
      IsAscending-then_dest sts g _ (merge-Above sts _ (f ∷ fs) gs (o, Above-trans _ _ fs o a) b)
        dest

  merge-IsAscending :
      (fs gs : List FileStat)
      → IsAscending fs
      → IsAscending gs
      → IsAscending (merge sts fs gs).yielded
  unfolding merge
  merge-IsAscending [] [] a b = tt
  merge-IsAscending (f ∷ fs) [] (a, as') b =
      IsAscending-then_src _ f _ (merge-Above sts _ fs [] a tt) (merge-IsAscending fs [] as' tt)
  merge-IsAscending [] (g ∷ gs) a (b, bs') =
      IsAscending-then_dest sts g _ (merge-Above sts _ [] gs tt b) (merge-IsAscending [] gs tt bs')
  merge-IsAscending (f ∷ fs) (g ∷ gs) (a, as') (b, bs') =
      let step =
        step-IsAscending (compare_comp_key f g) f g fs gs (compare_comp_key-Orders f g) a b
          (merge-IsAscending fs gs as' bs') (merge-IsAscending fs (g ∷ gs) as' (b, bs'))
          (merge-IsAscending (f ∷ fs) gs (a, as') bs') in
      rw (← merge-step sts f g fs gs) at step

  -- From two ascending listings `Comparator.call` yields the files in ascending order of their
  -- keys, so that no key is operated on twice.
  pub call-IsAscending :
      (src_files dest_files : List FileStat)
      → IsAscending src_files
      → IsAscending dest_files
      → IsAscending (call sts src_files dest_files).yielded
  call-IsAscending src dest a b = rw (call-eq-merge sts src dest) (merge-IsAscending src dest a b)

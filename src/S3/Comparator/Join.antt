-- ===== src/S3/Comparator/Join.antt =====
-- `sync` as a join of two listings by key, without an order or a loop.
use mathlib.Core.List.{Perm, perm_append_comm, append_assoc}
use mathlib.Core.List.Perm
use m_awsexp.Common.{
  List, Option, ◌++◌, ◌∷◌, none, [], some, ◌≡◌, arith, str_eq_iff, str_lt_irrefl, refl,
  if◌then◌else◌, Str, sym,
}
use m_awsexp.S3.Strategy.{SyncStrategies, Verdict}
use m_awsexp.S3.FileStat.{FileStat}
use m_awsexp.S3.Comparator.Keys.{find_key, Above, find_key-Above}
use m_awsexp.S3.Comparator.Merge.{dest_verdict, src_verdict, both_verdict}

-- The file at the source, if the verdict says so, and the one at the destination.
abbrev pub kept_src : Option Verdict → FileStat → List FileStat
kept_src none f = []
kept_src (some v) f = if v.should_sync then f ∷ [] else []

abbrev pub singleton : Option FileStat → List FileStat
singleton none = []
singleton (some g) = g ∷ []

abbrev pub kept_dest : Option Verdict → List FileStat
kept_dest none = []
kept_dest (some v) = if v.should_sync then singleton v.dest_file else []

module _ (sts : SyncStrategies) where
  -- A file of the source is held against the file of the destination with its key, if any.
  abbrev pub from_src : List FileStat → FileStat → List FileStat
  from_src dest f = elim (find_key f.compare_key dest) [
    | none ↦ kept_src (src_verdict sts f) f
    | some g ↦ kept_src (both_verdict sts f g) f
  ]

  -- A file of the destination counts if no file of the source has its key.
  abbrev pub from_dest : List FileStat → FileStat → List FileStat
  from_dest src g = elim (find_key g.compare_key src) [
    | none ↦ kept_dest (dest_verdict sts g)
    | some f ↦ []
  ]

  unfoldable pub all_from_src : List FileStat → List FileStat → List FileStat
  all_from_src dest [] = []
  all_from_src dest (f ∷ fs) = from_src dest f ++ all_from_src dest fs

  unfoldable pub all_from_dest : List FileStat → List FileStat → List FileStat
  all_from_dest src [] = []
  all_from_dest src (g ∷ gs) = from_dest src g ++ all_from_dest src gs

  abbrev pub joined : List FileStat → List FileStat → List FileStat
  joined src dest = all_from_src dest src ++ all_from_dest src dest

  -- A file whose key lies below all that are looked up can be left out of the other listing.
  pub all_from_src-cons :
      (g : FileStat) (gs fs : List FileStat)
      → Above g.compare_key fs
      → all_from_src (g ∷ gs) fs ≡ all_from_src gs fs
  unfolding all_from_src find_key
  all_from_src-cons g gs [] a = refl
  all_from_src-cons g gs (f ∷ fs) (a, as') =
      rw (all_from_src-cons g gs fs as')
        (ground (arith, str_eq_iff f.compare_key g.compare_key, str_lt_irrefl f.compare_key))

  all_from_dest-cons :
      (f : FileStat) (fs gs : List FileStat)
      → Above f.compare_key gs
      → all_from_dest (f ∷ fs) gs ≡ all_from_dest fs gs
  unfolding all_from_dest find_key
  all_from_dest-cons f fs [] a = refl
  all_from_dest-cons f fs (g ∷ gs) (a, as') =
      rw (all_from_dest-cons f fs gs as')
        (ground (arith, str_eq_iff g.compare_key f.compare_key, str_lt_irrefl g.compare_key))

perm_front {ℓ} : {A : Type ℓ} (xs ys zs : List A) → Perm (xs ++ (ys ++ zs)) (ys ++ (xs ++ zs))
perm_front xs ys zs =
    rw (← append_assoc xs ys zs, ← append_assoc ys xs zs)
      (Perm.append_right zs (perm_append_comm xs ys))

find_key_self :
    (k : Str) (g : FileStat) (gs : List FileStat) → k ≡ g.compare_key → find_key k (g ∷ gs) ≡ some g
unfolding find_key
find_key_self k g gs e = ground (arith, str_eq_iff k g.compare_key)

-- What the first files of two ascending listings contribute to the join.
module _ (sts : SyncStrategies) (f g : FileStat) (fs gs : List FileStat) where
  from_src_self :
      f.compare_key ≡ g.compare_key → from_src sts (g ∷ gs) f ≡ kept_src (both_verdict sts f g) f
  from_src_self e = rw (find_key_self f.compare_key g gs e, from_src)

  from_dest_self : f.compare_key ≡ g.compare_key → from_dest sts (f ∷ fs) g ≡ []
  from_dest_self e = rw (find_key_self g.compare_key f fs (sym e), from_dest)

  from_src_absent :
      Above f.compare_key (g ∷ gs) → from_src sts (g ∷ gs) f ≡ kept_src (src_verdict sts f) f
  from_src_absent a = rw (find_key-Above f.compare_key (g ∷ gs) a, from_src)

  from_dest_absent :
      Above g.compare_key (f ∷ fs) → from_dest sts (f ∷ fs) g ≡ kept_dest (dest_verdict sts g)
  from_dest_absent a = rw (find_key-Above g.compare_key (f ∷ fs) a, from_dest)

  pub joined_equal :
      f.compare_key ≡ g.compare_key
      → Above f.compare_key fs
      → Above g.compare_key gs
      → joined sts (f ∷ fs) (g ∷ gs) ≡ kept_src (both_verdict sts f g) f ++ joined sts fs gs
  unfolding all_from_src all_from_dest
  joined_equal e af ag = rw (
    from_src_self e,
    from_dest_self e,
    all_from_src-cons sts g gs fs (rw (← e) af),
    all_from_dest-cons sts f fs gs (rw e ag),
    append_assoc,
  )

  pub joined_less :
      Above f.compare_key (g ∷ gs)
      → joined sts (f ∷ fs) (g ∷ gs) ≡ kept_src (src_verdict sts f) f ++ joined sts fs (g ∷ gs)
  unfolding all_from_src
  joined_less a = rw (from_src_absent a, all_from_dest-cons sts f fs (g ∷ gs) a, append_assoc)

  pub joined_greater :
      Above g.compare_key (f ∷ fs)
      → Perm
          (joined sts (f ∷ fs) (g ∷ gs))
          (kept_dest (dest_verdict sts g) ++ joined sts (f ∷ fs) gs)
  unfolding all_from_dest
  joined_greater a =
      rw (from_dest_absent a, all_from_src-cons sts g gs (f ∷ fs) a)
        (perm_front (all_from_src sts gs (f ∷ fs)) (kept_dest (dest_verdict sts g))
          (all_from_dest sts (f ∷ fs) gs))

-- ===== src/S3/Comparator/Loop.antt =====
-- The loop of `Comparator.call` ends within its fuel, and does what the merge does.
use m_awsexp.Common.{
  ◌≡◌, refl, true, false, some, List, [], ◌∷◌, arith, ℕ, Option, suc, length, ◌∙◌, none, ap, ◌+◌,
  ◌<◌, zero,
}
use m_awsexp.S3.FileStat.{FileStat}
use m_awsexp.S3.Comparator.{
  Side, advance, taking, SyncStrategies, Round, decide_round, round, yield_src, yield_dest, loop,
  stop, Stream, Verdict, compare_comp_key, equal, call, follow, fresh, less_than, greater_than,
}
use m_awsexp.S3.Comparator.Merge.{
  src_verdict, then_dest, then_src, merge, dest_verdict, both_verdict,
}

-- What a side still has to give at the start of a round: the file that it holds back, if any,
-- and what its iterator holds.
data Holds : Side → List FileStat → Type 0 where
  taken : (s : Side) → s.done ≡ false → s.take_next ≡ true → Holds s s.files
  held :
      (s : Side) (f : FileStat)
      → s.done ≡ false
      → s.take_next ≡ false
      → s.file ≡ some f
      → Holds s (f ∷ s.files)
  over : (s : Side) → s.done ≡ true → Holds s []

-- A side after `advance`: it is done, or it shows its next file.
abbrev Shows : Side → List FileStat → Type 0
Shows s [] = s.done ≡ true
Shows s (f ∷ fs) = (s.done ≡ false) × (s.file ≡ some f) × (s.files ≡ fs)

advance_taken :
    (s : Side) (l : List FileStat)
    → s.files ≡ l
    → s.done ≡ false
    → s.take_next ≡ true
    → Shows (advance s) l
unfolding advance
advance_taken s [] e h k = ground arith
advance_taken s (f ∷ fs) e h k = ground arith

advance-Shows : {s : Side} {l : List FileStat} → Holds s l → Shows (advance s) l
unfolding advance
advance-Shows (taken s h k) = advance_taken s s.files refl h k
advance-Shows (held s f h k e) = ground arith
advance-Shows (over s h) = ground arith

holds_taken :
    (s : Side) (l : List FileStat) → s.files ≡ l → s.done ≡ false → Holds (taking true s) l
holds_taken s l e h = rw (← e) (taken (taking true s) h refl)

holds_back :
    (s : Side) (f : FileStat) (l : List FileStat)
    → s.files ≡ l
    → s.file ≡ some f
    → s.done ≡ false
    → Holds (taking false s) (f ∷ l)
holds_back s f l e k h = rw (← e) (held (taking false s) f h refl k)

module _ (sts : SyncStrategies) where
  -- The round that starts where two sides hold `fs` and `gs`, in terms of the advanced sides.
  abbrev round_on : List FileStat → List FileStat → Side → Side → Round
  round_on [] [] a b = stop
  round_on (f ∷ fs) [] a b = yield_src (src_verdict sts f) f (taking true a) b
  round_on [] (g ∷ gs) a b = yield_dest (dest_verdict sts g) a (taking true b)
  round_on (f ∷ fs) (g ∷ gs) a b = elim (compare_comp_key f g) [
    | equal ↦ yield_src (both_verdict sts f g) f (taking true a) (taking true b)
    | less_than ↦ yield_src (src_verdict sts f) f (taking true a) (taking false b)
    | greater_than ↦ yield_dest (dest_verdict sts g) (taking false a) (taking true b)
  ]

  decide_round_lem :
      (fs gs : List FileStat) (a b : Side)
      → Shows a fs
      → Shows b gs
      → decide_round sts a.done b.done a b ≡ round_on fs gs a b
  unfolding decide_round
  decide_round_lem [] [] a b h k = ground arith
  decide_round_lem (f ∷ fs) [] a b h k = ground arith
  decide_round_lem [] (g ∷ gs) a b h k = ground arith
  decide_round_lem (f ∷ fs) (g ∷ gs) a b h k = ground arith

  round_lem :
      {s d : Side} {fs gs : List FileStat}
      → Holds s fs
      → Holds d gs
      → round sts s d ≡ round_on fs gs (advance s) (advance d)
  unfolding round
  round_lem h k = decide_round_lem _ _ _ _ (advance-Shows h) (advance-Shows k)

  follow-yield_src :
      (rest : Side → Side → Stream) (v : Option Verdict) (f : FileStat) (s d : Side)
      → follow rest (yield_src v f s d) ≡ then_src v f (rest s d)
  unfolding yield_src
  follow-yield_src rest none f s d = refl
  follow-yield_src rest (some v) f s d = refl

  follow-yield_dest :
      (rest : Side → Side → Stream) (v : Option Verdict) (s d : Side)
      → follow rest (yield_dest v s d) ≡ then_dest v (rest s d)
  unfolding yield_dest
  follow-yield_dest rest none s d = refl
  follow-yield_dest rest (some v) s d = refl

  loop_step :
      (fuel : ℕ) {s d : Side} {fs gs : List FileStat}
      → Holds s fs
      → Holds d gs
      → loop sts (suc fuel) s d ≡ follow (loop sts fuel) (round_on fs gs (advance s) (advance d))
  unfolding loop
  loop_step fuel {s} {d} {fs} {gs} h k = ap (follow (loop sts fuel)) (round_lem h k)

  -- A state of the loop from which `fuel` rounds do what the merge does.
  abbrev Follows : ℕ → Type 0
  Follows fuel =
      (s d : Side) (fs gs : List FileStat)
      → Holds s fs
      → Holds d gs
      → length fs + length gs < fuel
      → loop sts fuel s d ≡ merge sts fs gs

  loop_both :
      (fuel : ℕ)
      → Follows fuel
      → (a b : Side) (f g : FileStat) (fs gs : List FileStat) → Shows a (f ∷ fs)
      → Shows b (g ∷ gs)
      → suc (length fs) + suc (length gs) < suc fuel
      → follow (loop sts fuel) (round_on (f ∷ fs) (g ∷ gs) a b) ≡ merge sts (f ∷ fs) (g ∷ gs)
  unfolding merge
  loop_both fuel ih a b f g fs gs (oa, fa, ra) (ob, fb, rb) lt =
      elim (compare_comp_key f g)
        as (λ c.
          follow (loop sts fuel) (elim c [
            | equal ↦ yield_src (both_verdict sts f g) f (taking true a) (taking true b)
            | less_than ↦ yield_src (src_verdict sts f) f (taking true a) (taking false b)
            | greater_than ↦ yield_dest (dest_verdict sts g) (taking false a) (taking true b)
          ])
          ≡ elim c [
            | equal ↦ then_src (both_verdict sts f g) f (merge sts fs gs)
            | less_than ↦ then_src (src_verdict sts f) f (merge sts fs (g ∷ gs))
            | greater_than ↦ then_dest (dest_verdict sts g) (merge sts (f ∷ fs) gs)
          ]) [
            | equal ↦
                follow-yield_src _ _ _ _ _
                ∙ ap (then_src (both_verdict sts f g) f)
                    (ih _ _ fs gs (holds_taken a fs ra oa) (holds_taken b gs rb ob) (omega arith))
            | less_than ↦
                follow-yield_src _ _ _ _ _
                ∙ ap (then_src (src_verdict sts f) f) (
                    ih _ _ fs (g ∷ gs) (holds_taken a fs ra oa) (holds_back b g gs rb fb ob)
                      (omega arith))
            | greater_than ↦
                follow-yield_dest _ _ _ _
                ∙ ap (then_dest (dest_verdict sts g)) (
                    ih _ _ (f ∷ fs) gs (holds_back a f fs ra fa oa) (holds_taken b gs rb ob)
                      (omega arith))
          ]

  loop_shown :
      (fuel : ℕ)
      → Follows fuel
      → (a b : Side) (fs gs : List FileStat) → Shows a fs
      → Shows b gs
      → length fs + length gs < suc fuel
      → follow (loop sts fuel) (round_on fs gs a b) ≡ merge sts fs gs
  unfolding merge
  loop_shown fuel ih a b [] [] h k lt = refl
  loop_shown fuel ih a b (f ∷ fs) [] (oa, fa, ra) k lt =
      follow-yield_src _ _ _ _ _
      ∙ ap (then_src (src_verdict sts f) f)
          (ih _ _ fs [] (holds_taken a fs ra oa) (over b k) (omega arith))
  loop_shown fuel ih a b [] (g ∷ gs) h (ob, fb, rb) lt =
      follow-yield_dest _ _ _ _
      ∙ ap (then_dest (dest_verdict sts g))
          (ih _ _ [] gs (over a h) (holds_taken b gs rb ob) (omega arith))
  loop_shown fuel ih a b (f ∷ fs) (g ∷ gs) h k lt = loop_both fuel ih a b f g fs gs h k lt

  loop-eq-merge : (fuel : ℕ) → Follows fuel
  loop-eq-merge zero s d fs gs h k lt = absurd (omega arith)
  loop-eq-merge (suc fuel) s d fs gs h k lt =
      loop_step fuel h k
      ∙ loop_shown fuel (loop-eq-merge fuel) (advance s) (advance d) fs gs (advance-Shows h)
          (advance-Shows k) lt

-- The loop ends, and yields what the merge of the two listings yields, in the same order; it ends
-- by an exception exactly where the merge does. No condition on the listings is needed.
pub call-eq-merge :
    (sts : SyncStrategies) (src_files dest_files : List FileStat)
    → call sts src_files dest_files ≡ merge sts src_files dest_files
unfolding call
call-eq-merge sts src_files dest_files =
    loop-eq-merge sts _ (fresh src_files) (fresh dest_files) src_files dest_files
      (taken (fresh src_files) refl refl) (taken (fresh dest_files) refl refl) (omega arith)

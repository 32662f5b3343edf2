-- ===== src/S3/UploadSystem/Complete.antt =====
-- A CompleteMultipartUpload request names every part once, in order.
use mathlib.Core.List.{Perm, Permᴰ, perm_middle, map-append, append-nil, append_assoc}
use mathlib.Core.List.Perm
use mathlib.Core.Logic.{∥∥₁_elim}
use mathlib.Core.Path.{subst}
use native.Mathlib.Nat.{ℕ_set}
use m_awsexp.S3.UploadContext.{
  UploadContext, Part, announce_upload_id, wait_for_parts_to_finish, ready, cancel_upload,
  sort_parts, announce_completed, announce_finished_part,
}
use m_awsexp.Common.{
  List, ℕ, ◌≤◌, ◌++◌, length, ◌≡◌, ap, some, ◌∷◌, All, [], suc, ◌∙◌, refl, zero, ◌+◌, arith,
  length-append, ◌≢◌,
}
use m_awsexp.S3.UploadSystem.{
  System, Step, created, create_failed, complete_succeeded, aborted, complete_requested,
  part_started, part_skipped, part_finished, part_failed, enqueued, Reach, later, start,
}
use m_awsexp.S3.UploadContext.Sorting.{range, numbers, numbers-sort_parts-range, length-numbers}

-- Where the parts are: announced, being sent, waiting or lost.
abbrev held : System → List ℕ
held s = numbers s.context.parts ++ (s.running ++ (s.pending ++ s.lost))

pub record IsAccounted (n : ℕ) (s : System) : Type 0 where
  pub expected : s.context.expected_parts ≡ some n
  pub parts : Perm (held s) (range 1 n)
  pub requests : All (λ ps. numbers ps ≡ range 1 n) s.requests

length-permᴰ : {xs ys : List ℕ} → Permᴰ xs ys → length xs ≡ length ys
length-permᴰ Permᴰ.nil = refl
length-permᴰ (Permᴰ.cons e p) = ap suc (length-permᴰ p)
length-permᴰ (Permᴰ.swap e f) = refl
length-permᴰ (Permᴰ.trans p q) = length-permᴰ p ∙ length-permᴰ q

length-perm : {xs ys : List ℕ} → Perm xs ys → length xs ≡ length ys
length-perm {xs} {ys} p = ∥∥₁_elim p (ℕ_set (length xs) (length ys)) length-permᴰ

pub length-range : (first n : ℕ) → length (range first n) ≡ n
unfolding range
length-range first zero = refl
length-range first (suc n) = ap suc (length-range (suc first) n)

-- A part can be taken out from between two lists.
bring :
    (bs xs ys cs : List ℕ) (n : ℕ)
    → Perm (bs ++ ((xs ++ (n ∷ ys)) ++ cs)) (n ∷ (bs ++ ((xs ++ ys) ++ cs)))
bring bs xs ys cs n =
    Perm.trans (Perm.append_left bs (Perm.append_right cs (perm_middle xs ys)))
      (perm_middle bs ((xs ++ ys) ++ cs))

module _ (as' bs cs : List ℕ) (xs ys : List ℕ) (n : ℕ) where
  skipped-perm :
      Perm (as' ++ (bs ++ ((xs ++ ys) ++ (n ∷ cs)))) (as' ++ (bs ++ ((xs ++ (n ∷ ys)) ++ cs)))
  skipped-perm = Perm.append_left as' (
      Perm.append_left bs
        (Perm.trans (perm_middle (xs ++ ys) cs) (Perm.symm (bring [] xs ys cs n))))

  finished-perm : Perm ((as' ++ (n ∷ [])) ++ ((xs ++ ys) ++ cs)) (as' ++ ((xs ++ (n ∷ ys)) ++ cs))
  finished-perm =
      rw (append_assoc as' (n ∷ []) ((xs ++ ys) ++ cs))
        (Perm.trans (perm_middle as' ((xs ++ ys) ++ cs)) (Perm.symm (bring as' xs ys cs n)))

  failed-perm :
      Perm (as' ++ ((xs ++ ys) ++ (bs ++ (n ∷ cs)))) (as' ++ ((xs ++ (n ∷ ys)) ++ (bs ++ cs)))
  failed-perm = Perm.append_left as' (
      Perm.trans
        (rw (append_assoc (xs ++ ys) bs (n ∷ cs), append_assoc (xs ++ ys) bs cs) at
          (perm_middle {a = n} ((xs ++ ys) ++ bs) cs))
        (Perm.symm (bring [] xs ys (bs ++ cs) n)))

nil_of_length : (xs : List ℕ) → length xs ≡ 0 → xs ≡ []
nil_of_length [] h = refl
nil_of_length (x ∷ xs) h = absurd (omega arith)

-- Every part is somewhere.
held_count :
    {n : ℕ} {s : System}
    → IsAccounted n s
    → length s.context.parts + length (s.running ++ (s.pending ++ s.lost)) ≡ n
held_count {n} {s} acc = omega (
  arith,
  length-perm acc.parts,
  length-range 1 n,
  length-append (numbers s.context.parts) (s.running ++ (s.pending ++ s.lost)),
  length-numbers s.context.parts,
)

-- All parts are announced once `n` of them are.
all_announced :
    {n : ℕ} {s : System}
    → IsAccounted n s
    → n ≤ length s.context.parts
    → Perm (numbers s.context.parts) (range 1 n)
all_announced {n} {s} acc enough =
    let none_left =
      nil_of_length (s.running ++ (s.pending ++ s.lost)) (omega (arith, held_count acc)) in
    rw (append-nil (numbers s.context.parts)) at
      (subst (λ xs. Perm (numbers s.context.parts ++ xs) (range 1 n)) none_left acc.parts)

enough_parts :
    (c : UploadContext) (n : ℕ) (ps : List Part)
    → c.expected_parts ≡ some n
    → wait_for_parts_to_finish c ≡ ready ps
    → (n ≤ length c.parts) × (sort_parts c.parts ≡ ps)
unfolding wait_for_parts_to_finish
enough_parts c n ps e h = ground arith

complete_parts :
    {n : ℕ} {s : System} (ps : List Part)
    → IsAccounted n s
    → wait_for_parts_to_finish s.context ≡ ready ps
    → numbers ps ≡ range 1 n
complete_parts {n} {s} ps acc h =
    let (enough, sorted) = enough_parts s.context n ps acc.expected h in
    rw (← sorted) (numbers-sort_parts-range s.context.parts 1 n (all_announced acc enough))

-- The parts of the two fields that a step leaves alone.
Step-IsAccounted : {n : ℕ} {s t : System} → Step s t → IsAccounted n s → IsAccounted n t
unfolding announce_upload_id cancel_upload announce_completed announce_finished_part
Step-IsAccounted (created s i) a = record {
  expected = a.expected;
  parts = a.parts;
  requests = a.requests;
}
Step-IsAccounted (create_failed s) a = record {
  expected = a.expected;
  parts = a.parts;
  requests = a.requests;
}
Step-IsAccounted (complete_succeeded s) a = record {
  expected = a.expected;
  parts = a.parts;
  requests = a.requests;
}
Step-IsAccounted (aborted s) a = record {
  expected = a.expected;
  parts = a.parts;
  requests = a.requests;
}
Step-IsAccounted (complete_requested s ps h) a = record {
  expected = a.expected;
  parts = a.parts;
  requests = (complete_parts ps a h, a.requests);
}
Step-IsAccounted {n} (part_started s xs ys k i e h) a = record {
  expected = a.expected;
  parts =
      Perm.trans
        (Perm.append_left (numbers s.context.parts) (Perm.symm (bring s.running xs ys s.lost k)))
        (rw e at a.parts);
  requests = a.requests;
}
Step-IsAccounted {n} (part_skipped s xs ys k e h) a = record {
  expected = a.expected;
  parts =
      Perm.trans (skipped-perm (numbers s.context.parts) s.running s.lost xs ys k)
        (rw e at a.parts);
  requests = a.requests;
}
Step-IsAccounted {n} (part_finished s xs ys k etag e) a = record {
  expected = a.expected;
  parts = rw (map-append (λ (p : Part). p.part_number) s.context.parts) (
      Perm.trans (finished-perm (numbers s.context.parts) [] (s.pending ++ s.lost) xs ys k)
        (rw e at a.parts));
  requests = a.requests;
}
Step-IsAccounted {n} (part_failed s xs ys k e) a = record {
  expected = a.expected;
  parts =
      Perm.trans (failed-perm (numbers s.context.parts) s.pending s.lost xs ys k) (rw e at a.parts);
  requests = a.requests;
}

start-IsAccounted : (n : ℕ) → IsAccounted n (enqueued n)
start-IsAccounted n = record {
  expected = refl;
  parts = rw (append-nil (range 1 n)) (Perm.refl (range 1 n));
  requests = tt;
}

Reach-IsAccounted : {n : ℕ} {s : System} → Reach n s → IsAccounted n s
Reach-IsAccounted {n} start = start-IsAccounted n
Reach-IsAccounted (later r st) = Step-IsAccounted st (Reach-IsAccounted r)

-- However the threads interleave and whichever requests fail, every CompleteMultipartUpload request
-- that is sent lists the parts 1, 2, …, n, each once and in this order.
pub complete_requests_ordered :
    {n : ℕ} {s : System} → Reach n s → All (λ ps. numbers ps ≡ range 1 n) s.requests
complete_requests_ordered r = (Reach-IsAccounted r).requests

-- Once a part has failed or was skipped, CompleteMultipartUploadTask never gets its parts: its wait
-- either goes on or raises UploadCancelledError.
pub lost_part_blocks_completion :
    {n : ℕ} {s : System} (ps : List Part)
    → Reach n s
    → s.lost ≢ []
    → wait_for_parts_to_finish s.context ≢ ready ps
lost_part_blocks_completion {n} {s} ps r lost h =
    let acc = Reach-IsAccounted r in
    let (enough, sorted) = enough_parts s.context n ps acc.expected h in
    lost (
      nil_of_length s.lost (
        omega (
          arith,
          held_count acc,
          length-append s.running (s.pending ++ s.lost),
          length-append s.pending s.lost,
        )))

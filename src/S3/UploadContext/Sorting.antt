-- ===== src/S3/UploadContext/Sorting.antt =====
-- The numbers of the parts that `wait_for_parts_to_finish` returns do not depend on the order in
-- which the parts were announced.
use mathlib.Core.List.{Perm, Permᴰ, map}
use mathlib.Core.List.Perm
use mathlib.Core.Logic.{∥∥₁_elim}
use m_awsexp.S3.UploadContext.{Part, sort_parts, insert_part}
use m_awsexp.Common.{
  ℕ, List, ◌∷◌, [], ◌≡◌, suc, if◌then◌else◌, arith, Bool-cases, ◌∙◌, zero, refl, ap, leb, inl, inr,
  length,
}

insert : ℕ → List ℕ → List ℕ
insert a [] = a ∷ []
insert a (b ∷ bs) = let rest = insert a bs in if leb a b then a ∷ b ∷ bs else b ∷ rest

sort : List ℕ → List ℕ
sort [] = []
sort (a ∷ as') = insert a (sort as')

insert_comm : (a b : ℕ) (xs : List ℕ) → insert a (insert b xs) ≡ insert b (insert a xs)
unfolding insert
insert_comm a b [] = ground arith
insert_comm a b (c ∷ xs) = ground (arith, insert_comm a b xs)

sort-permᴰ : {xs ys : List ℕ} → Permᴰ xs ys → sort xs ≡ sort ys
unfolding sort
sort-permᴰ Permᴰ.nil = refl
sort-permᴰ (Permᴰ.cons e p) = cc (e, sort-permᴰ p)
sort-permᴰ (Permᴰ.swap {a} {b} {l = l} e f) = cc (e, f, insert_comm a b (sort l))
sort-permᴰ (Permᴰ.trans p q) = sort-permᴰ p ∙ sort-permᴰ q

sort-perm : {xs ys : List ℕ} → Perm xs ys → sort xs ≡ sort ys
sort-perm {xs} {ys} p = ∥∥₁_elim p (ListsSet (sort xs) (sort ys)) sort-permᴰ
  where
    ListsSet : IsSet (List ℕ)
    ListsSet = hlevel

-- first, first + 1, …, `n` numbers
unfoldable pub range : ℕ → ℕ → List ℕ
range first zero = []
range first (suc n) = first ∷ range (suc first) n

sort-range : (first n : ℕ) → sort (range first n) ≡ range first n
unfolding sort range insert
sort-range first zero = refl
sort-range first (suc zero) = refl
sort-range first (suc (suc n)) = rw (sort-range (suc first) (suc n)) (ground arith)

abbrev pub numbers : List Part → List ℕ
numbers = map (λ (p : Part). p.part_number)

numbers-insert_part :
    (p : Part) (ps : List Part) → numbers (insert_part p ps) ≡ insert p.part_number (numbers ps)
unfolding insert_part insert
numbers-insert_part p [] = refl
numbers-insert_part p (q ∷ qs) = ground (arith, numbers-insert_part p qs)

numbers-sort_parts : (ps : List Part) → numbers (sort_parts ps) ≡ sort (numbers ps)
unfolding sort_parts sort
numbers-sort_parts [] = refl
numbers-sort_parts (p ∷ ps) =
    numbers-insert_part p (sort_parts ps) ∙ ap (insert p.part_number) (numbers-sort_parts ps)

-- Parts whose numbers are a range in any order are sorted into that range.
pub numbers-sort_parts-range :
    (ps : List Part) (first n : ℕ)
    → Perm (numbers ps) (range first n)
    → numbers (sort_parts ps) ≡ range first n
numbers-sort_parts-range ps first n p = numbers-sort_parts ps ∙ sort-perm p ∙ sort-range first n

insert_part-perm : (p : Part) (ps : List Part) → Perm (insert_part p ps) (p ∷ ps)
unfolding insert_part
insert_part-perm p [] = Perm.refl (p ∷ [])
insert_part-perm p (q ∷ qs) = elim (Bool-cases (leb p.part_number q.part_number)) [
  | inl le ↦ rw le (Perm.refl (p ∷ q ∷ qs))
  | inr gt ↦ rw gt (Perm.trans (Perm.cons q (insert_part-perm p qs)) (Perm.swap p q qs))
]

-- Sorting loses and adds no part.
pub sort_parts-perm : (ps : List Part) → Perm (sort_parts ps) ps
unfolding sort_parts
sort_parts-perm [] = Perm.refl []
sort_parts-perm (p ∷ ps) =
    Perm.trans (insert_part-perm p (sort_parts ps)) (Perm.cons p (sort_parts-perm ps))

pub length-numbers : (ps : List Part) → length (numbers ps) ≡ length ps
length-numbers [] = refl
length-numbers (p ∷ ps) = ap suc (length-numbers ps)

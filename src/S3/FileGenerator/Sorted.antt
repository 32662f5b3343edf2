-- ===== src/S3/FileGenerator/Sorted.antt =====
-- `FileGenerator.normalize_sort` on names that differ, and ascending lists of keys.
use m_awsexp.Common.{
  ◌≡◌, Str, List, ◌∷◌, str_eq, All, Bool, [], str_lt, false, ◌++◌, arith, true, Bool-cases, inl,
  str_eq_iff, inr, str_eq_refl, str_lt_total, str_lt_trans,
}
use m_awsexp.S3.FileGenerator.{Disk, insert_name, normal, normalize_sort, Entry}

-- Each key is less than all later ones.
abbrev pub Ascending : List Str → Type 0
Ascending [] = Unit
Ascending (k ∷ ks) = All (λ j. str_lt k j ≡ true) ks × Ascending ks

pub All-append {ℓ κ} :
    {A : Type ℓ} (P : A → Type κ) (xs ys : List A) → All P xs → All P ys → All P (xs ++ ys)
All-append P [] ys p q = q
All-append P (x ∷ xs) ys (p, ps) q = (p, All-append P xs ys ps q)

pub All-map {ℓ κ μ} :
    {A : Type ℓ} {P : A → Type κ} {Q : A → Type μ} (xs : List A)
    → ((x : A) → P x → Q x)
    → All P xs
    → All Q xs
All-map [] f ps = tt
All-map (x ∷ xs) f (p, ps) = (f x p, All-map xs f ps)

pub Ascending-append :
    (xs ys : List Str)
    → Ascending xs
    → Ascending ys
    → All (λ x. All (λ y. str_lt x y ≡ true) ys) xs
    → Ascending (xs ++ ys)
Ascending-append [] ys p q r = q
Ascending-append (x ∷ xs) ys (a, p) q (b, r) =
    (All-append _ xs ys a b, Ascending-append xs ys p q r)

str_eq-false_sym : (s t : Str) → str_eq s t ≡ false → str_eq t s ≡ false
str_eq-false_sym s t h = ground (arith, str_eq_iff t s, str_eq_refl s)

-- No two entries have the same name.
abbrev pub DifferentNames : List Entry → Type 0
DifferentNames [] = Unit
DifferentNames (e ∷ es) = All (λ f. str_eq e.name f.name ≡ false) es × DifferentNames es

module _ (disk : Disk) (follow_symlinks : Bool) where
  -- The name comes before all of the names.
  abbrev pub Before : Str → List Str → Type 0
  Before n =
      All (λ m. str_lt (normal disk follow_symlinks n) (normal disk follow_symlinks m) ≡ true)

  abbrev pub Sorted : List Str → Type 0
  Sorted [] = Unit
  Sorted (n ∷ ns) = Before n ns × Sorted ns

  -- The name differs from all of the names.
  abbrev pub Other : Str → List Str → Type 0
  Other n =
      All (λ m. str_eq (normal disk follow_symlinks n) (normal disk follow_symlinks m) ≡ false)

  abbrev pub Distinct : List Str → Type 0
  Distinct [] = Unit
  Distinct (n ∷ ns) = Other n ns × Distinct ns

  All-insert_name {ℓ} :
      (P : Str → Type ℓ) (n : Str) (ns : List Str)
      → P n
      → All P ns
      → All P (insert_name disk follow_symlinks n ns)
  unfolding insert_name
  All-insert_name P n [] p ps = (p, tt)
  All-insert_name P n (m ∷ ms) p (q, qs) =
      elim (Bool-cases (str_lt (normal disk follow_symlinks m) (normal disk follow_symlinks n))) [
        | inl less ↦ rw (insert_name, less) (q, All-insert_name P n ms p qs)
        | inr not_less ↦ rw (insert_name, not_less) (p, (q, qs))
      ]

  insert_name-Sorted :
      (n : Str) (ns : List Str)
      → Other n ns
      → Sorted ns
      → Sorted (insert_name disk follow_symlinks n ns)
  unfolding insert_name
  insert_name-Sorted n [] o s = (tt, tt)
  insert_name-Sorted n (m ∷ ms) (o, os) (b, s) =
      elim (Bool-cases (str_lt (normal disk follow_symlinks m) (normal disk follow_symlinks n))) [
        | inl less ↦
            rw (insert_name, less) (All-insert_name _ n ms less b, insert_name-Sorted n ms os s)
        | inr not_less ↦
            let first : str_lt (normal disk follow_symlinks n) (normal disk follow_symlinks m)
                ≡ true =
              str_lt_total _ _ (str_eq-false_sym _ _ o) not_less in
            rw (insert_name, not_less)
              ((first, All-map ms (λ k h. str_lt_trans _ _ _ first h) b), (b, s))
      ]

  pub All-normalize_sort {ℓ} :
      (P : Str → Type ℓ) (ns : List Str) → All P ns → All P (normalize_sort disk follow_symlinks ns)
  unfolding normalize_sort
  All-normalize_sort P [] ps = tt
  All-normalize_sort P (n ∷ ns) (p, ps) = All-insert_name P n _ p (All-normalize_sort P ns ps)

  pub normalize_sort-Sorted :
      (ns : List Str) → Distinct ns → Sorted (normalize_sort disk follow_symlinks ns)
  unfolding normalize_sort
  normalize_sort-Sorted [] d = tt
  normalize_sort-Sorted (n ∷ ns) (o, d) =
      insert_name-Sorted n _ (All-normalize_sort _ ns o) (normalize_sort-Sorted ns d)

-- ===== src/S3/Path/Laws.antt =====
-- Buckets, keys and compare keys.
use m_awsexp.Common.{
  ℕ, Str, ◌≡◌, ◌++◌, [], ◌∷◌, arith, join-split, refl, ◌⊎◌, inl, replace, true, inr, ap,
  drop-append, Free, split-append, split-Free,
}
use native.Mathlib.Decide.{ℕ_discrete}
use m_awsexp.S3.Path.{
  find_bucket_key, find_dest_path_comp_key, split_s3_bucket_key, Files, s3_prefix, sep,
}

-- A bucket name has no slash; bucket and key are found again whatever the key is.
pub find_bucket_key-join :
    (bucket key : Str) → Free b'/' bucket → find_bucket_key (bucket ++ b'/' ∷ key) ≡ (bucket, key)
unfolding find_bucket_key
find_bucket_key-join bucket key f = rw (split-append b'/' bucket key f) (rw (join-split b'/' key))

pub find_bucket_key_bare : (bucket : Str) → Free b'/' bucket → find_bucket_key bucket ≡ (bucket, [])
unfolding find_bucket_key
find_bucket_key_bare bucket f = rw (split-Free b'/' bucket f)

-- A text without `c`, or one that is cut at its first `c`.
Cut : ℕ → Str → Type 0
Cut c p = Free c p ⊎ ((s : Str) × (t : Str) × Free c s × (p ≡ s ++ c ∷ t))

cut : (c : ℕ) (p : Str) → Cut c p
unfolding Cut
cut c [] = inl tt
cut c (d ∷ p) = elim (ℕ_discrete d c) [
  | yes e ↦ inr ([], p, tt, rw e)
  | no n ↦ elim (cut c p) [
    | inl f ↦ inl (n, f)
    | inr (s, t, f, e) ↦ inr (d ∷ s, t, (n, f), ap (◌∷◌ d) e)
  ]
]

-- Bucket and key of any path: the bucket has no slash, and the path is the bucket alone, with the
-- empty key, or the bucket, a slash and the key.
abbrev Splits : Str → Str × Str → Type 0
Splits p (bucket, key) =
    Free b'/' bucket × (((p ≡ bucket) × (key ≡ [])) ⊎ (p ≡ bucket ++ b'/' ∷ key))

pub find_bucket_key_lem : (s3_path : Str) → Splits s3_path (find_bucket_key s3_path)
unfolding Cut
find_bucket_key_lem p = elim (cut b'/' p) [
  | inl f ↦ rw (find_bucket_key_bare p f) (f, inl (refl, refl))
  | inr (s, t, f, e) ↦ rw (e, find_bucket_key-join s t f) (f, inr refl)
]

-- The scheme makes no difference to bucket and key.
pub split_s3_bucket_key-scheme :
    (s3_path : Str) → split_s3_bucket_key (s3_prefix ++ s3_path) ≡ find_bucket_key s3_path
unfolding split_s3_bucket_key
split_s3_bucket_key-scheme p = refl

replace-replace :
    (s d : ℕ) (rel : Str)
    → (d ≡ b'/') ⊎ Free d rel
    → replace (replace rel s d) d b'/' ≡ replace rel s b'/'
unfolding replace
replace-replace s d [] h = refl
replace-replace s d (c ∷ rel) h = rw (replace-replace s d rel (ground arith)) (ground arith)

module _ (os_sep : ℕ) where
  -- The same command with source and destination exchanged.
  abbrev pub reversed : Files → Files
  reversed files = record files { src = files.dest; dest = files.src }

  -- Under a directory the path below the source goes below the destination, with the separators
  -- of the destination, and with slashes it is the compare key.
  pub find_dest_path_comp_key-below :
      (files : Files) (rel : Str)
      → files.dir_op ≡ true
      → files.use_src_name ≡ true
      → let s = sep os_sep files.src.location in
        find_dest_path_comp_key os_sep files (files.src.path ++ rel)
        ≡ (files.dest.path ++ replace rel s (sep os_sep files.dest.location), replace rel s b'/')
  unfolding find_dest_path_comp_key
  find_dest_path_comp_key-below files rel dir name =
      rw (dir, name) (rw (drop-append files.src.path rel))

  -- The file that a transfer writes is listed, from the other side, under the compare key of its
  -- source: so a repeated `sync` meets it as the same file. Where the separator of the destination
  -- is not a slash the name may not contain it.
  pub compare_key-reversed :
      (files : Files) (rel : Str)
      → files.dir_op ≡ true
      → files.use_src_name ≡ true
      → (sep os_sep files.dest.location ≡ b'/') ⊎ Free (sep os_sep files.dest.location) rel
      → let (dest_path, compare_key) =
          find_dest_path_comp_key os_sep files (files.src.path ++ rel) in
        (find_dest_path_comp_key os_sep (reversed files) dest_path).1 ≡ compare_key
  compare_key-reversed files rel dir name h =
      rw (find_dest_path_comp_key-below files rel dir name)
        (rw (find_dest_path_comp_key-below (reversed files) _ dir name) (replace-replace _ _ rel h))

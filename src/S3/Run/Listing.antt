-- ===== src/S3/Run/Listing.antt =====
-- The listing of a bucket, as `Comparator` needs it.
use mathlib.Core.List.{map}
use m_awsexp.S3.DateTime.{DateTime}
use m_awsexp.Common.{
  Option, some, refl, ℕ, Str, List, ◌∷◌, ◌≡◌, Bool, true, All, ◌++◌, if_both, str_lt, [],
  replace_refl, drop, length, drop-append, sym, ◌∙◌,
}
use m_awsexp.S3.FileGenerator.{select_objects, Listed, is_yielded, call_s3, file_stat, list_objects}
use m_awsexp.S3.Path.{Files, find_dest_path_comp_key}
use m_awsexp.S3.FileStat.{Operation, s3, FileStat}
use m_awsexp.S3.Comparator.Keys.{Above, IsAscending}
use m_awsexp.S3.FileGenerator.Names.{str_lt-append}

-- What the service says of a listing: the keys start with the prefix and are in ascending order.
abbrev pub Below : Str → Listed → Type 0
Below prefix x = (r : Str) × (x.0 ≡ prefix ++ r)

abbrev pub Ordered : List Listed → Type 0
Ordered [] = Unit
Ordered (x ∷ xs) = All (λ y. str_lt x.0 y.0 ≡ true) xs × Ordered xs

select_objects-All :
    (P : Listed → Type 0) (o : Operation) (dir_op : Bool) (path : Str) (xs : List Listed)
    → All P xs
    → All P (select_objects o dir_op path xs)
unfolding select_objects
select_objects-All P o dir_op path [] h = tt
select_objects-All P o dir_op path (x ∷ xs) (h, hs) =
    let rest = select_objects-All P o dir_op path xs hs in
    if_both (All P) (is_yielded o dir_op path x) (h, rest) rest

select_objects-Ordered :
    (o : Operation) (dir_op : Bool) (path : Str) (xs : List Listed)
    → Ordered xs
    → Ordered (select_objects o dir_op path xs)
unfolding select_objects
select_objects-Ordered o dir_op path [] h = tt
select_objects-Ordered o dir_op path (x ∷ xs) (h, hs) =
    let rest = select_objects-Ordered o dir_op path xs hs in
    if_both Ordered (is_yielded o dir_op path x)
      (select_objects-All (λ y. str_lt x.0 y.0 ≡ true) o dir_op path xs h, rest) rest

module _ (os_sep : ℕ) (files : Files) (operation : Operation) (dir : files.dir_op ≡ true)
    (bucket : files.src.location ≡ s3) where
  key_of_object :
      (path r : Str)
      → path ≡ files.src.path ++ r
      → (find_dest_path_comp_key os_sep files path).1 ≡ r
  unfolding find_dest_path_comp_key
  key_of_object path r e =
      rw
        (
          find_dest_path_comp_key,
          dir,
          bucket,
          e,
          replace_refl (drop (length files.src.path) (files.src.path ++ r)) b'/',
        )
        (drop-append files.src.path r)

  abbrev stat : Listed → FileStat
  stat x = file_stat os_sep files operation x.0 x.1 x.2

  stats-Above :
      (x : Listed) (xs : List Listed)
      → Below files.src.path x
      → All (Below files.src.path) xs
      → All (λ y. str_lt x.0 y.0 ≡ true) xs
      → Above (stat x).compare_key (map stat xs)
  stats-Above x [] b bs h = tt
  stats-Above x (y ∷ ys) (r, e) ((q, f), bs) (h, hs) =
      let path = files.src.path in
      let below : str_lt (path ++ r) (path ++ q) ≡ true = rw (sym e, sym f) h in
      (
        rw (key_of_object x.0 r e, key_of_object y.0 q f) (sym (str_lt-append path r q) ∙ below),
        stats-Above x ys (r, e) bs hs,
      )

  stats-IsAscending :
      (xs : List Listed) → All (Below files.src.path) xs → Ordered xs → IsAscending (map stat xs)
  stats-IsAscending [] b h = tt
  stats-IsAscending (x ∷ xs) (b, bs) (h, hs) = (stats-Above x xs b bs h, stats-IsAscending xs bs hs)

  -- The compare keys of a bucket's listing are in ascending order too.
  pub call_s3-IsAscending :
      (head_object : Option (ℕ × DateTime)) (listing : List Listed)
      → files.dir_op ≡ true
      → All (Below files.src.path) listing
      → Ordered listing
      → (fs : List FileStat) × (call_s3 os_sep operation files head_object listing ≡ some fs)
        × IsAscending fs
  unfolding call_s3 list_objects
  call_s3-IsAscending head_object listing dir b h = (
    _,
    rw dir refl,
    stats-IsAscending (select_objects operation true files.src.path listing)
        (select_objects-All (Below files.src.path) operation true files.src.path listing b)
        (select_objects-Ordered operation true files.src.path listing h),
  )

-- ===== src/S3/Tests/Listing.antt =====
-- An example for the local listing: a small tree on a POSIX disk.
use mathlib.Core.Path.{subst}
use m_awsexp.Common.{
  ℕ, ◌≡◌, Str, starts_with, ends_with, if◌then◌else◌, str_eq, List, codes, ◌++◌, true, ◌∷◌, false,
  [], All, ◌||◌, Bool-cases, inl, some, sym, ◌<◌, arith, str_eq_iff, inr, refl,
}
use m_awsexp.S3.Path.{Files}
use m_awsexp.S3.FileGenerator.Names.{plain}
use m_awsexp.S3.FileGenerator.{Disk, Entry, call_local}
use m_awsexp.S3.FileGenerator.Proper.{IsTree, Joins}
use m_awsexp.S3.FileStat.{local, FileStat, s3, upload}
use m_awsexp.S3.FileGenerator.Sorted.{DifferentNames}
use m_awsexp.S3.Comparator.Keys.{IsAscending}
use m_awsexp.S3.FileGenerator.Generated.{call_local-IsAscending}

-- os.path.join of a POSIX system: an absolute second path is the result.
abbrev pub posix_join : Str → Str → Str
posix_join p n =
    if starts_with n (b'/' ∷ []) then n else if ends_with p b'/' then p ++ n else p ++ (b'/' ∷ n)

abbrev entry : Str → Entry
entry name = record { name = name; decoded = true }

abbrev small_listdir : Str → List Entry
small_listdir p =
    if str_eq p (codes "d/")
    then entry (codes "y") ∷ entry (codes "y.x") ∷ []
    else if str_eq p (codes "d/y/")
    then entry (codes "z") ∷ []
    else []

abbrev pub small_height : Str → ℕ
small_height p = if str_eq p (codes "d/") then 2 else if str_eq p (codes "d/y/") then 1 else 0

abbrev pub small_disk : Disk
small_disk = record {
  sep = b'/';
  join = posix_join;
  isdir = λ p. str_eq p (codes "d/") || (str_eq p (codes "d/y") || str_eq p (codes "d/y/"));
  islink = λ p. false;
  exists = λ p. true;
  is_special_file = λ p. false;
  is_readable = λ p. true;
  listdir = small_listdir;
  get_file_stat = λ p. (1, 10);
}

-- What holds of the two directories and of every other path holds of all paths.
by_path :
    (P : Str → Type 0) (p : Str)
    → P (codes "d/")
    → P (codes "d/y/")
    → (str_eq p (codes "d/") ≡ false → str_eq p (codes "d/y/") ≡ false → P p)
    → P p
by_path P p a b c = elim (Bool-cases (str_eq p (codes "d/"))) [
  | inl e ↦ subst P (sym ((str_eq_iff p (codes "d/")).0 e)) a
  | inr n ↦ elim (Bool-cases (str_eq p (codes "d/y/"))) [
    | inl e ↦ subst P (sym ((str_eq_iff p (codes "d/y/")).0 e)) b
    | inr m ↦ c n m
  ]
]

pub small_disk-IsTree : IsTree small_disk small_height
unfolding plain str_eq ends_with starts_with
small_disk-IsTree = record {
  join_lem = λ p.
      by_path
        (λ q. ends_with q b'/' ≡ true → All (λ e. Joins small_disk q e.name) (small_listdir q)) p
        (λ h. ((refl, refl), ((refl, refl), tt))) (λ h. ((refl, refl), tt)) (λ n m h. rw (n, m) tt);
  names_plain = λ p.
      by_path (λ q. All (λ e. plain b'/' e.name ≡ true) (small_listdir q)) p (refl, (refl, tt))
        (refl, tt) (λ n m. rw (n, m) tt);
  names_differ = λ p.
      by_path (λ q. DifferentNames (small_listdir q)) p ((refl, tt), (tt, tt)) (tt, tt)
        (λ n m. rw (n, m) tt);
  lower = λ p.
      by_path
        (λ q.
          All
            (λ e.
              small_disk.isdir (q ++ e.name) ≡ true
              → small_height (q ++ (e.name ++ (b'/' ∷ []))) < small_height q)
            (small_listdir q))
        p ((λ e. omega arith), ((λ e. omega arith), tt)) ((λ e. omega arith), tt)
        (λ n m. rw (n, m) tt);
}

abbrev tree_files : Files
tree_files = record {
  src = record { path = codes "d/"; location = local };
  dest = record { path = codes "bucket/"; location = s3 };
  dir_op = true;
  use_src_name = true;
}

call_local-IsAscending_example :
    (fs : List FileStat) × (call_local small_disk true upload 3 tree_files ≡ some fs)
    × IsAscending fs
unfolding ends_with str_eq
call_local-IsAscending_example =
    call_local-IsAscending small_disk true small_height small_disk-IsTree tree_files upload refl
      refl 3 refl (omega arith)

-- ===== src/S3/FileGenerator/Generated.antt =====
-- What `FileGenerator.call` gives for a local directory, as `Comparator` needs it.
use m_awsexp.Common.{
  ℕ, ◌≡◌, Str, replace, length, Bool, drop, ◌∷◌, suc, ◌++◌, zero, [], ap, refl, true, List,
  ends_with, ◌<◌, All, some, str_lt,
}
use m_awsexp.S3.FileGenerator.{Disk, yield_files, normal, call_local, Event, warned, found}
use m_awsexp.S3.FileGenerator.Proper.{IsTree}
use m_awsexp.S3.Path.{Files, find_dest_path_comp_key}
use m_awsexp.S3.FileStat.{Operation, local, FileStat}
use m_awsexp.S3.FileGenerator.Order.{keys, list_files-Ascending}
use m_awsexp.S3.Comparator.Keys.{IsAscending, Above}
use m_awsexp.S3.FileGenerator.Sorted.{Ascending}
use m_awsexp.S3.FileGenerator.Names.{str_lt-append}

replace-drop : (n : ℕ) (s : Str) (a b : ℕ) → replace (drop n s) a b ≡ drop n (replace s a b)
unfolding replace
replace-drop zero s a b = refl
replace-drop (suc n) [] a b = refl
replace-drop (suc n) (c ∷ s) a b = replace-drop n s a b

drop-prefix : (p r : Str) → drop (length p) (p ++ r) ≡ r
drop-prefix [] r = refl
drop-prefix (c ∷ p) r = drop-prefix p r

length-replace : (s : Str) (a b : ℕ) → length (replace s a b) ≡ length s
unfolding replace
length-replace [] a b = refl
length-replace (c ∷ s) a b = ap suc (length-replace s a b)

module _ (disk : Disk) (follow_symlinks : Bool) (height : Str → ℕ) (tree : IsTree disk height)
    (files : Files) (operation : Operation) (dir : files.dir_op ≡ true)
    (local_source : files.src.location ≡ local) where
  abbrev root : Str
  root = files.src.path

  abbrev norm : Str → Str
  norm = normal disk follow_symlinks

  -- The compare key of a file is what its path has behind the directory's.
  key_of :
      (path r : Str)
      → norm path ≡ norm root ++ r
      → (find_dest_path_comp_key disk.sep files path).1 ≡ r
  unfolding find_dest_path_comp_key
  key_of path r e =
      rw
        (
          find_dest_path_comp_key,
          dir,
          local_source,
          replace-drop (length root) path disk.sep b'/',
          e,
          ← length-replace root disk.sep b'/',
        )
        (drop-prefix (norm root) r)

  abbrev AllUnder : List Event → Type 0
  AllUnder es =
      All (λ k. (r : Str) × (k ≡ norm root ++ r)) (keys disk follow_symlinks height tree es)

  yield_files-Above :
      (path r : Str) (es : List Event)
      → norm path ≡ norm root ++ r
      → AllUnder es
      → All (λ j. str_lt (norm path) j ≡ true) (keys disk follow_symlinks height tree es)
      → Above r (yield_files disk.sep files operation es)
  unfolding yield_files keys
  yield_files-Above path r [] e u a = tt
  yield_files-Above path r (warned q w ∷ es) e u a = yield_files-Above path r es e u a
  yield_files-Above path r (found q size time ∷ es) e ((t, d), u) (less, a) = (
    rw (key_of q t d) (rw (e, d, str_lt-append (norm root) r t) at less),
    yield_files-Above path r es e u a,
  )

  yield_files-IsAscending :
      (es : List Event)
      → Ascending (keys disk follow_symlinks height tree es)
      → AllUnder es
      → IsAscending (yield_files disk.sep files operation es)
  unfolding yield_files keys
  yield_files-IsAscending [] a u = tt
  yield_files-IsAscending (warned q w ∷ es) a u = yield_files-IsAscending es a u
  yield_files-IsAscending (found q size time ∷ es) (a, as') ((r, e), u) =
      (rw (key_of q r e) (yield_files-Above q r es e u a), yield_files-IsAscending es as' u)

  -- For a directory on a tree, written with its separator at the end, and with more fuel than its
  -- height, the generator's listing is what the comparator needs of its inputs: the compare keys are
  -- in strictly ascending order.
  pub call_local-IsAscending :
      (depth : ℕ)
      → ends_with root disk.sep ≡ true
      → height root < depth
      → (fs : List FileStat) × (call_local disk follow_symlinks operation depth files ≡ some fs)
        × IsAscending fs
  unfolding call_local
  call_local-IsAscending depth ends low =
      let (es, e, a, u) =
        list_files-Ascending disk follow_symlinks height tree depth root ends low in
      (
        yield_files disk.sep files operation es,
        rw (call_local, dir, e) refl,
        yield_files-IsAscending es a u,
      )

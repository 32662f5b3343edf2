-- ===== src/S3/FileGenerator/Order.antt =====
-- The order in which `FileGenerator.list_files` yields the files under a directory.
use mathlib.Core.List.{append_assoc, append-nil}
use m_awsexp.Common.{
  ℕ, ◌≡◌, Bool, Str, ends_with, List, ◌++◌, All, true, [], ◌∷◌, ◌<◌, ◌⊎◌, Bool-cases, arith, ap,
  inr, inl, refl, Option, some, ◌∙◌, str_lt, suc, zero,
}
use m_awsexp.S3.FileGenerator.{
  file, Disk, normal, visible, Entry, Event, warned, found, should_ignore_entry, walk, list_files,
  should_ignore_file, normalize_sort,
}
use m_awsexp.S3.FileGenerator.Names.{
  replace-append, str_lt-append, str_lt-continued, ends_with-snoc,
}
use m_awsexp.S3.FileGenerator.Sorted.{
  Before, Sorted, Ascending, Ascending-append, All-map, All-append, normalize_sort-Sorted,
  All-normalize_sort,
}
use m_awsexp.S3.FileGenerator.Proper.{IsTree, Proper, slashed, visible-Distinct, visible-Proper}

module _ (disk : Disk) (follow_symlinks : Bool) (height : Str → ℕ) (tree : IsTree disk height) where
  abbrev norm : Str → Str
  norm = normal disk follow_symlinks

  -- The compare keys of the files that were found, below the root.
  unfoldable pub keys : List Event → List Str
  keys [] = []
  keys (warned path w ∷ es) = keys es
  keys (found path size time ∷ es) = norm path ∷ keys es

  keys-append : (xs ys : List Event) → keys (xs ++ ys) ≡ keys xs ++ keys ys
  unfolding keys
  keys-append [] ys = refl
  keys-append (warned path w ∷ xs) ys = keys-append xs ys
  keys-append (found path size time ∷ xs) ys = ap (◌∷◌ (norm path)) (keys-append xs ys)

  -- The key continues the directory and one of the names.
  abbrev FromNames : Str → List Str → Str → Type 0
  FromNames p [] k = ⊥
  FromNames p (n ∷ ns) k = ((r : Str) × (k ≡ norm p ++ (norm n ++ r))) ⊎ FromNames p ns k

  abbrev Under : Str → Str → Type 0
  Under p k = (r : Str) × (k ≡ norm p ++ r)

  FromNames-Under : (p : Str) (ns : List Str) (k : Str) → FromNames p ns k → Under p k
  FromNames-Under p [] k h = absurd h
  FromNames-Under p (n ∷ ns) k (inl (r, e)) = (norm n ++ r, e)
  FromNames-Under p (n ∷ ns) k (inr h) = FromNames-Under p ns k h

  -- A key that continues an earlier name comes before one that continues a later name.
  str_lt-FromNames :
      (p n r : Str) (ns : List Str) (k : Str)
      → Before disk follow_symlinks n ns
      → All (Proper disk follow_symlinks height tree p) ns
      → (r ≡ []) ⊎ (ends_with (norm n) b'/' ≡ true)
      → FromNames p ns k
      → str_lt (norm p ++ (norm n ++ r)) k ≡ true
  str_lt-FromNames p n r [] k b ps c h = absurd h
  str_lt-FromNames p n r (m ∷ ns) k (less, b) ((q, j, x), ps) c (inl (s, e)) =
      rw (e, str_lt-append (norm p) (norm n ++ r) (norm m ++ s))
        (str_lt-continued (norm n) (norm m) r s q less c)
  str_lt-FromNames p n r (m ∷ ns) k (less, b) (q, ps) c (inr h) =
      str_lt-FromNames p n r ns k b ps c h

  -- What a listing of the directory `p` returns.
  abbrev Listing : Str → Option (List Event) → Type 0
  Listing p o = (es : List Event) × (o ≡ some es) × Ascending (keys es) × All (Under p) (keys es)

  -- The key continues the name, and only a directory's name with more text.
  abbrev Continues : Str → Str → Str → Type 0
  Continues p n k =
      (r : Str) × (k ≡ norm p ++ (norm n ++ r)) × ((r ≡ []) ⊎ (ends_with (norm n) b'/' ≡ true))

  -- The files of one name, and then those of the later ones.
  glue :
      (p n : Str) (ns : List Str) (xs ys : List Event)
      → Before disk follow_symlinks n ns
      → All (Proper disk follow_symlinks height tree p) ns
      → Ascending (keys xs)
      → All (Continues p n) (keys xs)
      → Ascending (keys ys)
      → All (FromNames p ns) (keys ys)
      → Ascending (keys (xs ++ ys)) × All (FromNames p (n ∷ ns)) (keys (xs ++ ys))
  glue p n ns xs ys b ps asc own asc' from = rw (keys-append xs ys) (
    Ascending-append (keys xs) (keys ys) asc asc' (
        All-map (keys xs)
          (λ x (r, e, c).
            rw e (All-map (keys ys) (λ y f. str_lt-FromNames p n r ns y b ps c f) from))
          own),
    All-append (FromNames p (n ∷ ns)) (keys xs) (keys ys)
        (All-map (keys xs) (λ x (r, e, c). inl (r, e)) own) (All-map (keys ys) (λ y f. inr f) from),
  )

  named_ends : (p n base : Str) → n ≡ base ++ (disk.sep ∷ []) → ends_with (p ++ n) disk.sep ≡ true
  named_ends p n base named =
      rw (named, ← append_assoc p base (disk.sep ∷ [])) (ends_with-snoc (p ++ base) disk.sep)

  Under-Continues :
      (p n base k : Str) → n ≡ base ++ (disk.sep ∷ []) → Under (p ++ n) k → Continues p n k
  Under-Continues p n base k named (r, e) = (
    r,
    rw (replace-append p n disk.sep b'/', append_assoc (norm p) (norm n) r) at e,
    inr (
        rw (named, slashed disk follow_symlinks height tree base)
          (ends_with-snoc (norm base) b'/')),
  )

  walk_lem :
      (list : Str → Option (List Event)) (p : Str) (ns : List Str)
      → ends_with p disk.sep ≡ true
      → Sorted disk follow_symlinks ns
      → All (Proper disk follow_symlinks height tree p) ns
      → ((q : Str) → ends_with q disk.sep ≡ true → height q < height p → Listing q (list q))
      → (es : List Event) × (walk disk follow_symlinks list p ns ≡ some es)
        × Ascending (keys es)
        × All (FromNames p ns) (keys es)
  unfolding walk keys
  walk_lem list p [] h s ps rec = ([], refl, tt, tt)
  walk_lem list p (n ∷ ns) h (b, s) ((c, joined, dir), ps) rec =
      let (ys, e, asc, from) = walk_lem list p ns h s ps rec in
      elim (Bool-cases (disk.isdir (p ++ n))) [
        | inl y ↦
            let (base, named, low) = dir y in
            let (xs, d, asc', under) = rec (p ++ n) (named_ends p n base named) low in
            let (a, f) =
              glue p n ns xs ys b ps asc'
                (All-map (keys xs) (λ k u. Under-Continues p n base k named u) under) asc from in
            (xs ++ ys, rw (walk, joined, y, d, e) refl, a, f)
        | inr no_dir ↦
            let x = file disk follow_symlinks (p ++ n) in
            let (a, f) =
              glue p n ns (x ∷ []) ys b ps (tt, tt)
                (([], rw (append-nil (norm n)) (replace-append p n disk.sep b'/'), inl refl), tt)
                asc from in
            (x ∷ ys, rw (walk, joined, no_dir, e) refl, a, f)
      ]

  keys-warnings : (ws es : List Event) → keys ws ≡ [] → keys (ws ++ es) ≡ keys es
  keys-warnings ws es h = rw (keys-append ws es, h) refl

  ignored_warnings : (path : Str) → keys (should_ignore_file disk follow_symlinks path).1 ≡ []
  unfolding should_ignore_file keys
  ignored_warnings path = ground arith

  entry_warnings :
      (path : Str) (e : Entry) → keys (should_ignore_entry disk follow_symlinks path e).1 ≡ []
  unfolding should_ignore_entry keys
  entry_warnings path e = elim (Bool-cases e.decoded) [
    | inl y ↦ rw (should_ignore_entry, y) (ignored_warnings (disk.join path e.name))
    | inr n ↦ rw (should_ignore_entry, n) refl
  ]

  visible_warnings :
      (path : Str) (es : List Entry) → keys (visible disk follow_symlinks path es).1 ≡ []
  unfolding visible keys
  visible_warnings path [] = refl
  visible_warnings path (e ∷ es) =
      keys-warnings (should_ignore_entry disk follow_symlinks path e).1
        (visible disk follow_symlinks path es).1 (entry_warnings path e)
      ∙ visible_warnings path es

  -- A directory on a tree is listed with one more unit of fuel than its height. The warnings apart,
  -- the paths of the files come in strictly ascending order, byte by byte with the separator as a
  -- slash, and each continues the path of the directory.
  pub list_files-Ascending :
      (depth : ℕ) (p : Str)
      → ends_with p disk.sep ≡ true
      → height p < depth
      → (es : List Event) × (list_files disk follow_symlinks depth true p ≡ some es)
        × Ascending (keys es)
        × All (λ k. (r : Str) × (k ≡ norm p ++ r)) (keys es)
  unfolding list_files
  list_files-Ascending zero p h low = absurd (omega (arith, low))
  list_files-Ascending (suc depth) p h low =
      let ns = visible disk follow_symlinks p (disk.listdir p) in
      let (ys, e, asc, from) =
        walk_lem (list_files disk follow_symlinks depth true) p
          (normalize_sort disk follow_symlinks ns.0) h
          (normalize_sort-Sorted disk follow_symlinks ns.0 (
            visible-Distinct disk follow_symlinks height tree p (disk.listdir p)
              (tree.names_plain p) (tree.names_differ p)))
          (All-normalize_sort disk follow_symlinks (Proper disk follow_symlinks height tree p) ns.0
            (visible-Proper disk follow_symlinks height tree p (disk.listdir p) (tree.join_lem p h)
              (tree.names_plain p) (tree.lower p)))
          (λ q hq lq. list_files-Ascending depth q hq (omega (arith, low, lq))) in
      let w = ignored_warnings p in
      elim (Bool-cases (should_ignore_file disk follow_symlinks p).0) [
        | inl ignored ↦ (
          (should_ignore_file disk follow_symlinks p).1,
          rw (list_files, ignored) refl,
          rw w tt,
          rw w tt,
        )
        | inr kept ↦
            let same =
              keys-warnings (should_ignore_file disk follow_symlinks p).1 (ns.1 ++ ys) w
              ∙ keys-warnings ns.1 ys (visible_warnings p (disk.listdir p)) in
            (
              (should_ignore_file disk follow_symlinks p).1 ++ (ns.1 ++ ys),
              rw (list_files, kept, e) refl,
              rw same asc,
              rw same (All-map (keys ys) (λ k f. FromNames-Under p _ k f) from),
            )
      ]

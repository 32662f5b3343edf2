-- ===== src/S3/FileGenerator/Proper.antt =====
-- The names that one directory has after the first loop of `FileGenerator.list_files`.
use mathlib.Core.List.{append-nil}
use m_awsexp.Common.{
  ℕ, ◌≡◌, Bool, Str, ends_with, List, replace, ◌++◌, All, true, [], ◌∷◌, str_eq, false, ◌<◌, ◌⊎◌,
  Bool-cases, arith, ap, inr, inl, refl, sym, ◌∙◌,
}
use m_awsexp.S3.FileGenerator.{Disk, normal, visible, Entry, decorate, should_ignore_entry}
use m_awsexp.S3.FileGenerator.Names.{
  plain, is_component, replace-append, replace-plain, plain-differ, plain-is_component,
}
use m_awsexp.S3.FileGenerator.Sorted.{DifferentNames, Distinct, Other}

-- The name of an entry, and that name with the separator at its end, are joined to the directory's
-- path as they are: neither is an absolute path, which would drop what is in front of it.
abbrev pub Joins : Disk → Str → Str → Type 0
Joins disk p n =
    (disk.join p n ≡ p ++ n) × (disk.join p (n ++ disk.sep ∷ []) ≡ p ++ (n ++ disk.sep ∷ []))

-- What `os` documents of a listing, for a disk whose directories have a bound `height` on their
-- depth: how the path of a directory, written with its separator at the end, is joined to the names
-- that are listed in it, and that these differ and have no separator.
pub record IsTree (disk : Disk) (height : Str → ℕ) : Type 0 where
  pub join_lem :
      (p : Str) → ends_with p disk.sep ≡ true → All (λ e. Joins disk p e.name) (disk.listdir p)
  pub names_plain : (p : Str) → All (λ e. plain disk.sep e.name ≡ true) (disk.listdir p)
  pub names_differ : (p : Str) → DifferentNames (disk.listdir p)
  pub lower :
      (p : Str)
      → All
          (λ e.
            disk.isdir (p ++ e.name) ≡ true → height (p ++ (e.name ++ (disk.sep ∷ []))) < height p)
          (disk.listdir p)

module _ (disk : Disk) (follow_symlinks : Bool) (height : Str → ℕ) (tree : IsTree disk height) where
  abbrev pub norm : Str → Str
  norm = normal disk follow_symlinks

  -- What a name in the directory `p` is after the first loop.
  abbrev pub Proper : Str → Str → Type 0
  Proper p name =
      (is_component (norm name) ≡ true)
      × (disk.join p name ≡ p ++ name)
      × (disk.isdir (p ++ name) ≡ true
          → (base : Str) × (name ≡ base ++ (disk.sep ∷ [])) × (height (p ++ name) < height p))

  pub slashed : (base : Str) → norm (base ++ (disk.sep ∷ [])) ≡ norm base ++ (b'/' ∷ [])
  unfolding replace
  slashed base = rw (replace-append base (disk.sep ∷ []) disk.sep b'/') (ground arith)

  -- The end that `decorate` gives to a plain name.
  decorated :
      (b : Bool) (n : Str)
      → plain disk.sep n ≡ true
      → (a : Str) × ((a ≡ []) ⊎ (a ≡ b'/' ∷ []))
        × (norm (decorate disk follow_symlinks b n) ≡ n ++ a)
  decorated true n h = (b'/' ∷ [], inr refl, rw (slashed n, replace-plain disk.sep n h) refl)
  decorated false n h = ([], inl refl, rw (replace-plain disk.sep n h, append-nil n) refl)

  Other-names :
      (p : Str) (n : Str) (b : Bool) (es : List Entry)
      → plain disk.sep n ≡ true
      → All (λ e. plain disk.sep e.name ≡ true) es
      → All (λ e. str_eq n e.name ≡ false) es
      → Other disk follow_symlinks
          (decorate disk follow_symlinks b n)
          (visible disk follow_symlinks p es).0
  unfolding visible
  Other-names p n b [] h ps ds = tt
  Other-names p n b (e ∷ es) h (q, ps) (d, ds) =
      let (a, i, x) = decorated b n h in
      let (c, j, y) = decorated (disk.isdir (disk.join p e.name)) e.name q in
      let rest = Other-names p n b es h ps ds in
      elim (Bool-cases (should_ignore_entry disk follow_symlinks p e).0) [
        | inl ignored ↦ rw (visible, ignored) rest
        | inr kept ↦
            rw (visible, kept) (rw (x, y) (plain-differ disk.sep n e.name a c h q i j d), rest)
      ]

  pub visible-Distinct :
      (p : Str) (es : List Entry)
      → All (λ e. plain disk.sep e.name ≡ true) es
      → DifferentNames es
      → Distinct disk follow_symlinks (visible disk follow_symlinks p es).0
  unfolding visible
  visible-Distinct p [] ps ds = tt
  visible-Distinct p (e ∷ es) (q, ps) (d, ds) =
      let rest = visible-Distinct p es ps ds in
      elim (Bool-cases (should_ignore_entry disk follow_symlinks p e).0) [
        | inl ignored ↦ rw (visible, ignored) rest
        | inr kept ↦
            rw (visible, kept)
              (Other-names p e.name (disk.isdir (disk.join p e.name)) es q ps d, rest)
      ]

  abbrev Lower : Str → List Entry → Type 0
  Lower p =
      All (λ e.
        disk.isdir (p ++ e.name) ≡ true → height (p ++ (e.name ++ (disk.sep ∷ []))) < height p)

  decorate-Proper :
      (p : Str) (e : Entry) (b : Bool)
      → disk.isdir (p ++ e.name) ≡ b
      → Joins disk p e.name
      → plain disk.sep e.name ≡ true
      → (b ≡ true → height (p ++ (e.name ++ (disk.sep ∷ []))) < height p)
      → Proper p (decorate disk follow_symlinks b e.name)
  decorate-Proper p e true d (bare, slash) h low = (
    let (a, i, x) = decorated true e.name h in rw x (plain-is_component disk.sep e.name a h i),
    slash,
    λ f. (e.name, refl, low refl),
  )
  decorate-Proper p e false d (bare, slash) h low = (
    let (a, i, x) = decorated false e.name h in rw x (plain-is_component disk.sep e.name a h i),
    bare,
    λ f. absurd (ground (arith, f, d)),
  )

  pub visible-Proper :
      (p : Str) (es : List Entry)
      → All (λ e. Joins disk p e.name) es
      → All (λ e. plain disk.sep e.name ≡ true) es
      → Lower p es
      → All (Proper p) (visible disk follow_symlinks p es).0
  unfolding visible
  visible-Proper p [] h ps low = tt
  visible-Proper p (e ∷ es) (h, hs) (q, ps) (l, low) =
      let rest = visible-Proper p es hs ps low in
      let joined = h.0 in
      let here =
        decorate-Proper p e (disk.isdir (disk.join p e.name)) (ap disk.isdir (sym joined)) h q
          (λ b. l (sym (ap disk.isdir joined) ∙ b)) in
      elim (Bool-cases (should_ignore_entry disk follow_symlinks p e).0) [
        | inl ignored ↦ rw (visible, ignored) rest
        | inr kept ↦ rw (visible, kept) (here, rest)
      ]

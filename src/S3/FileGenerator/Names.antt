-- ===== src/S3/FileGenerator/Names.antt =====
-- The names in one directory, as `FileGenerator.list_files` sorts them: texts with a slash at their
-- end at most, and their order when something follows them.
use m_awsexp.Common.{
  ℕ, ◌≡◌, str_eq, replace, ends_with, str_lt, Str, true, Bool, ◌++◌, ◌∷◌, [], arith, ◌⊎◌, not, inl,
  refl, ◌==◌, false, inr, ◌&&◌,
}

-- No slash and no separator in the name.
unfoldable pub plain : ℕ → Str → Bool
plain sep [] = true
plain sep (c ∷ s) = not (c == sep) && not (c == b'/') && plain sep s

-- No slash but at the end.
unfoldable pub is_component : Str → Bool
is_component [] = true
is_component (c ∷ []) = true
is_component (c ∷ d ∷ s) = not (c == b'/') && is_component (d ∷ s)

pub replace-append : (s t : Str) (a b : ℕ) → replace (s ++ t) a b ≡ replace s a b ++ replace t a b
unfolding replace
replace-append [] t a b = refl
replace-append (c ∷ s) t a b = ground (arith, replace-append s t a b)

pub replace-plain : (sep : ℕ) (s : Str) → plain sep s ≡ true → replace s sep b'/' ≡ s
unfolding replace plain
replace-plain sep [] h = refl
replace-plain sep (c ∷ s) h = ground (arith, replace-plain sep s)

pub str_lt-append : (p s t : Str) → str_lt (p ++ s) (p ++ t) ≡ str_lt s t
unfolding str_lt
str_lt-append [] s t = refl
str_lt-append (c ∷ p) s t = ground (arith, str_lt-append p s t)

-- The order of two components is that of all texts that continue them, if only one that ends with a
-- slash is continued on the left.
pub str_lt-continued :
    (m n r s : Str)
    → is_component n ≡ true
    → str_lt m n ≡ true
    → (r ≡ []) ⊎ (ends_with m b'/' ≡ true)
    → str_lt (m ++ r) (n ++ s) ≡ true
unfolding str_lt is_component ends_with
str_lt-continued m [] r s h lt e = ground arith
str_lt-continued [] (d ∷ n) r s h lt (inl e) = rw e refl
str_lt-continued [] (d ∷ n) r s h lt (inr e) = ground arith
str_lt-continued (c ∷ []) (d ∷ []) r s h lt e = ground arith
str_lt-continued (c ∷ []) (d ∷ f ∷ n) r s h lt (inl e) = rw e (ground arith)
str_lt-continued (c ∷ []) (d ∷ f ∷ n) r s h lt (inr e) = ground arith
str_lt-continued (c ∷ e ∷ m) (d ∷ []) r s h lt k = ground arith
str_lt-continued (c ∷ e ∷ m) (d ∷ f ∷ n) r s h lt k =
    ground (arith, str_lt-continued (e ∷ m) (f ∷ n) r s)

pub ends_with-snoc : (s : Str) (c : ℕ) → ends_with (s ++ (c ∷ [])) c ≡ true
unfolding ends_with
ends_with-snoc [] c = ground arith
ends_with-snoc (d ∷ []) c = ground arith
ends_with-snoc (d ∷ e ∷ s) c = ends_with-snoc (e ∷ s) c

-- A plain name is a component, with a slash behind it or not.
pub plain-is_component :
    (sep : ℕ) (s t : Str)
    → plain sep s ≡ true
    → (t ≡ []) ⊎ (t ≡ b'/' ∷ [])
    → is_component (s ++ t) ≡ true
unfolding plain is_component
plain-is_component sep [] t h (inl e) = rw e refl
plain-is_component sep [] t h (inr e) = rw e refl
plain-is_component sep (c ∷ []) t h (inl e) = rw e refl
plain-is_component sep (c ∷ []) t h (inr e) = rw e (ground arith)
plain-is_component sep (c ∷ d ∷ s) t h e = ground (arith, plain-is_component sep (d ∷ s) t)

-- Two plain names stay different when a slash is put behind one or both.
pub plain-differ :
    (sep : ℕ) (s t a b : Str)
    → plain sep s ≡ true
    → plain sep t ≡ true
    → (a ≡ []) ⊎ (a ≡ b'/' ∷ [])
    → (b ≡ []) ⊎ (b ≡ b'/' ∷ [])
    → str_eq s t ≡ false
    → str_eq (s ++ a) (t ++ b) ≡ false
unfolding plain str_eq
plain-differ sep [] [] a b h k i j e = ground arith
plain-differ sep [] (d ∷ t) a b h k (inl i) j e = rw i refl
plain-differ sep [] (d ∷ t) a b h k (inr i) j e = rw i (ground arith)
plain-differ sep (c ∷ s) [] a b h k i (inl j) e = rw j refl
plain-differ sep (c ∷ s) [] a b h k i (inr j) e = rw j (ground arith)
plain-differ sep (c ∷ s) (d ∷ t) a b h k i j e = ground (arith, plain-differ sep s t a b)

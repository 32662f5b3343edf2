-- ===== src/Configure/Writer/Text.antt =====
-- The lines that a text has.
use m_awsexp.Common.{
  ℕ, List, ends_with, Str, ◌≡◌, ◌∷◌, ◌≢◌, true, [], arith, refl, if_both, ◌==◌, Bool, ◌⊎◌, Free,
  ◌++◌, inl, if◌then◌else◌, ap, false, inr, ◌∙◌,
}
use m_awsexp.Configure.Writer.{readlines, cons_first, concat, last_line}

pub cons_first-ne-nil : (c : ℕ) (ls : List Str) → cons_first c ls ≢ []
cons_first-ne-nil c [] e = cc
cons_first-ne-nil c (l ∷ ls) e = cc

concat-cons_first : (c : ℕ) (ls : List Str) → concat (cons_first c ls) ≡ c ∷ concat ls
concat-cons_first c [] = refl
concat-cons_first c (l ∷ ls) = refl

pub concat-readlines : (text : Str) → concat (readlines text) ≡ text
unfolding readlines
concat-readlines [] = refl
concat-readlines (c ∷ s) = ground (arith, concat-readlines s, concat-cons_first c (readlines s))

last_line-cons_first :
    (c d : ℕ) (ls : List Str)
    → ends_with (last_line ls) d ≡ true
    → ends_with (last_line (cons_first c ls)) d ≡ true
unfolding ends_with
last_line-cons_first c d [] h = cc
last_line-cons_first c d ([] ∷ []) h = cc
last_line-cons_first c d ((e ∷ l) ∷ []) h = h
last_line-cons_first c d (l ∷ m ∷ ls) h = h

last_line-cons :
    (l : Str) (d : ℕ) (ls : List Str)
    → ends_with (last_line ls) d ≡ true
    → ends_with (last_line (l ∷ ls)) d ≡ true
unfolding ends_with
last_line-cons l d [] h = cc
last_line-cons l d (m ∷ ls) h = h

-- The last line ends as the text does.
pub ends_with-readlines :
    (text : Str) (d : ℕ) → ends_with text d ≡ true → ends_with (last_line (readlines text)) d ≡ true
unfolding readlines ends_with
ends_with-readlines [] d h = cc
ends_with-readlines (c ∷ []) d h = ground arith
ends_with-readlines (c ∷ e ∷ s) d h =
    let next = ends_with-readlines (e ∷ s) d h in
    let one = last_line-cons (c ∷ []) d (readlines (e ∷ s)) next in
    let two = last_line-cons_first c d (readlines (e ∷ s)) next in
    if_both (λ ls. ends_with (last_line ls) d ≡ true) (c == b'\n') one two

-- A text that is empty or ends with a newline.
abbrev pub Complete : Str → Type 0
Complete text = (text ≡ []) ⊎ (ends_with text b'\n' ≡ true)

pub readlines-line :
    (l s : Str) → Free b'\n' l → readlines (l ++ b'\n' ∷ s) ≡ (l ++ b'\n' ∷ []) ∷ readlines s
unfolding readlines
readlines-line [] s f = refl
readlines-line (c ∷ l) s (n, f) = rw (readlines, readlines-line l s f) (ground arith)

cons_first-append :
    (c : ℕ) (ls ms : List Str) → ls ≢ [] → cons_first c (ls ++ ms) ≡ cons_first c ls ++ ms
cons_first-append c [] ms h = absurd (h refl)
cons_first-append c (l ∷ ls) ms h = refl

readlines-ne-nil : (c : ℕ) (s : Str) → readlines (c ∷ s) ≢ []
unfolding readlines
readlines-ne-nil c s =
    if_both (λ ls. ls ≢ []) (c == b'\n') (λ e. cc) (cons_first-ne-nil c (readlines s))

first_line-append :
    (b : Bool) (c : ℕ) (ls ms : List Str)
    → ls ≢ []
    → (if b then (c ∷ []) ∷ (ls ++ ms) else cons_first c (ls ++ ms))
      ≡ (if b then (c ∷ []) ∷ ls else cons_first c ls) ++ ms
first_line-append true c ls ms h = refl
first_line-append false c ls ms h = cons_first-append c ls ms h

readlines-newline :
    (text s : Str)
    → ends_with text b'\n' ≡ true
    → readlines (text ++ s) ≡ readlines text ++ readlines s
unfolding readlines ends_with
readlines-newline [] s h = cc
readlines-newline (c ∷ []) s h = ground arith
readlines-newline (c ∷ d ∷ text) s h =
    let next = readlines-newline (d ∷ text) s h in
    ap (λ ls. if c == b'\n' then (c ∷ []) ∷ ls else cons_first c ls) next
    ∙ first_line-append (c == b'\n') c (readlines (d ∷ text)) (readlines s)
        (readlines-ne-nil d text)

pub readlines-append :
    (text s : Str) → Complete text → readlines (text ++ s) ≡ readlines text ++ readlines s
unfolding readlines
readlines-append text s (inl e) = rw e refl
readlines-append text s (inr h) = readlines-newline text s h
